-- ===== src/Sync/Requests.antt =====
-- How many requests a cycle of internal/coresync/sync.go sends.
use lts_agent.Base.{
  ℕ, suc, ◌+◌, ◌≤◌, Bool, true, false, Bytes, List, [], Option, lit, arith, if-ensures, Bool-cases,
  inl, inr, if◌then◌else◌,
}
use lts_agent.Go.Errors.{Result, ok, err, is_state_not_found}
use lts_agent.Client.Net.{Request}
use lts_agent.Client.{Client, do_json_with_bearer}
use lts_agent.Client.Origin.{Sent, unsent, sent, do_json_with_bearer-Sent}
use lts_agent.Go.Json.Value.{Value}
use lts_agent.Inventory.{Report, Core, Warning}
use lts_agent.Sync.Atomic.{Keeps, continue-Keeps}
use lts_agent.Sync.Enrollment.{SparesToken, fingerprint-Keeps, read_secret-Keeps, write_state-Keeps}
use lts_agent.Sync.Files.{Options, Dependencies, load_state}
use lts_agent.Sync.Quiet.{load_state-Keeps}
use lts_agent.Sync.Token.{StateDocument}
use lts_agent.Sync.{
  Outcome, request_registration, register, heartbeat, desired_state, observe, report_in,
  discard_token, operation, registered_as, enrolled, enroll, resume, sync,
}

-- `count` counts the requests that left the node: no call on a file or the clock adds to it, and
-- a request adds at most one.
pub record IsCount {W : Type 0} (client : Client W) (options : Options) (deps : Dependencies W)
    (count : W → ℕ) : Type 0 where
  pub files : (k : ℕ) → SparesToken options deps (λ w. count w ≤ k)
  pub remove : (k : ℕ) (path : Bytes) → Keeps (λ w. count w ≤ k) (deps.remove path)
  pub now : (w : W) → count (deps.now w).1 ≤ count w
  pub send : (r : Request) (w : W) → count (client.web.send r w).1 ≤ suc (count w)

-- What a cycle may send: nothing if Core is disabled, a heartbeat and a request for the desired
-- state if the node has a state, and a registration before them if it has none.
unfoldable pub allowance : Bool → Result StateDocument → ℕ
allowance false loaded = 0
allowance true (ok state) = 2
allowance true (err e) = if is_state_not_found e then 3 else 0

module _ {W : Type 0} (client : Client W) (options : Options) (deps : Dependencies W)
    (count : W → ℕ) (counts : IsCount client options deps count) where
  module _ {A : Type 0} (method endpoint bearer : Bytes) (body : Option Value)
      (target : Bytes → Result A) (k : ℕ) (w : W) (p : count w ≤ k) where
    Sent-count :
        {x : Result A × W} → Sent client method endpoint bearer body target w x → count x.1 ≤ suc k
    Sent-count (unsent e) = omega arith
    Sent-count (sent r a valid addressed) = let q = counts.send r w in omega (arith, p, q)

    do_json_with_bearer-count :
        count (do_json_with_bearer client method endpoint bearer body target w).1 ≤ suc k
    do_json_with_bearer-count =
        Sent-count (do_json_with_bearer-Sent client method endpoint bearer body target w)

  -- A statement about the count stays true with a larger bound.
  raised : (k : ℕ) (w : W) → count w ≤ k → count w ≤ suc k
  raised k w p = omega (arith, p)

  register-count :
      (report : Report) (k : ℕ) (w : W)
      → count w ≤ k
      → count (register client options deps report w).1 ≤ suc k
  unfolding register request_registration
  register-count report k w p =
      let Within = λ (w' : W). count w' ≤ suc k in
      let p1 = fingerprint-Keeps options deps _ (counts.files k) w p in
      continue-Keeps Within _ _ _ (raised k _ p1) (λ print _.
        let p2 = read_secret-Keeps options deps _ (counts.files k) _ _ _ p1 in
        continue-Keeps Within _ _ _ (raised k _ p2) (λ token _.
          let p3 = do_json_with_bearer-count _ _ _ _ _ k _ p2 in
          let p4 = continue-Keeps Within _ _ _ p3 (λ _ _. p3) in
          continue-Keeps Within _ _ _ p4 (λ state _.
            let p5 = write_state-Keeps options deps _ (counts.files (suc k)) state _ p4 in
            continue-Keeps Within _ _ _ p5 (λ _ _. p5))))

  heartbeat-count :
      (report : Report) (state : StateDocument) (k : ℕ) (w : W)
      → count w ≤ k
      → count (heartbeat client options deps report state w).1 ≤ suc k
  unfolding heartbeat
  heartbeat-count report state k w p =
      let q = counts.now w in do_json_with_bearer-count _ _ _ _ _ k _ (omega (arith, p, q))

  report_in-count :
      (report : Report) (result : Core) (warnings : List Warning) (state : StateDocument) (k : ℕ)
      (w : W)
      → count w ≤ k
      → count (report_in client options deps report result warnings state w).1 ≤ suc (suc k)
  unfolding report_in observe desired_state
  report_in-count report result warnings state k w p =
      let q = heartbeat-count report state k w p in
      if-ensures (λ (r : Outcome × W). count r.1 ≤ suc (suc k))
        (deps.cancelled (heartbeat client options deps report state w).1) (omega (arith, q))
        (do_json_with_bearer-count _ _ _ _ _ (suc k) _ q)

  enrolled-count :
      (report : Report) (reply : Result StateDocument) (k : ℕ) (w : W)
      → count w ≤ k
      → count (enrolled client options deps report reply w).1 ≤ suc (suc k)
  unfolding enrolled discard_token
  enrolled-count report (err e) k w p = omega (arith, p)
  enrolled-count report (ok s) k w p = report_in-count report _ _ s k _ (counts.remove k _ w p)

  resume-count :
      (report : Report) (loaded : Result StateDocument) (k : ℕ) (w : W)
      → count w ≤ k
      → count (resume client options deps report loaded w).1 ≤ allowance true loaded + k
  unfolding resume enroll allowance
  resume-count report (ok s) k w p =
      let q =
        report_in-count report (registered_as (operation false (lit "not_needed")) s) [] s k w p in
      omega (arith, q)
  resume-count report (err e) k w p = elim (Bool-cases (is_state_not_found e)) [
    | inl found ↦
        let q : count (enroll client options deps report w).1 ≤ suc (suc (suc k)) =
          enrolled-count report (register client options deps report w).0 (suc k) _
            (register-count report k w p) in
        rw found (omega (arith, q))
    | inr other ↦ rw other (omega (arith, p))
  ]

  enabled_or_not :
      (b : Bool) (loaded : Result StateDocument) (x y : Outcome × W) (k : ℕ)
      → count x.1 ≤ allowance true loaded + k
      → count y.1 ≤ k
      → count (if b then x else y).1 ≤ allowance b loaded + k
  unfolding allowance
  enabled_or_not true loaded x y k p q = p
  enabled_or_not false loaded x y k p q = omega (arith, q)

  -- A cycle sends no more requests than it may: none if Core is disabled or the state cannot be
  -- loaded although there is one, at most two if the node has a state, and at most three if it has
  -- none, however Core answers them.
  pub sync-allowance :
      (report : Report) (w : W)
      → count (sync client options deps report w).1
        ≤ allowance options.enabled (load_state options deps w).0 + count w
  unfolding sync
  sync-allowance report w =
      let still = load_state-Keeps options deps _ (counts.files (count w)).reads w (omega arith) in
      enabled_or_not options.enabled (load_state options deps w).0 _ _ (count w)
        (resume-count report (load_state options deps w).0 (count w) _ still) (omega arith)
