-- ===== src/Sync/Tests/Requests.antt =====
-- The requests that a small node of internal/coresync/sync.go sends.
use lts_agent.Base.{◌+◌, ◌≤◌, true, false, Bytes, lit, arith, same, Bool-cases, inl, inr, ℕ}
use lts_agent.Sync.Atomic.{Keeps}
use lts_agent.Sync.Enrollment.{SparesToken}
use lts_agent.Sync.Files.{load_state}
use lts_agent.Sync.Requests.{IsCount, allowance, sync-allowance}
use lts_agent.Sync.{sync}
use lts_agent.Sync.Tests.Node.{options, World, fresh, node, client, report}

removed :
    (k : ℕ) (path : Bytes) → Keeps (λ (w : World). w.requests ≤ k) ((node true false).remove path)
removed k path w p = elim (Bool-cases (same path (lit "/token"))) [
  | inl e ↦ rw e p
  | inr e ↦ rw e p
]

node_files : (k : ℕ) → SparesToken options (node true false) (λ w. w.requests ≤ k)
node_files k = record {
  reads = record { read_file = λ path w h. ground arith; lstat = λ path w h. ground arith };
  mkdir_all = λ path mode w h. h;
  create_temp = λ dir pattern w h. h;
  on_temporary = λ dir name w made.
      (λ mode w h. h, λ contents w h. h, λ w h. h, λ w h. h, λ w h. h, removed k name);
}

node-IsCount : IsCount client options (node true false) (λ w. w.requests)
node-IsCount = record {
  files = node_files;
  remove = removed;
  now = λ w. omega arith;
  send = λ r w. omega arith;
}

sync-allowance_example :
    (sync client options (node true false) report fresh).1.requests
    ≤ allowance true (load_state options (node true false) fresh).0 + 0
sync-allowance_example =
    sync-allowance client options (node true false) (λ w. w.requests) node-IsCount report fresh
