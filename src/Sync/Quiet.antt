-- ===== src/Sync/Quiet.antt =====
-- The parts of internal/coresync/sync.go that change no file: `loadState`, the heartbeat and the
-- retrieval of the desired state.
use lts_agent.Base.{◌≡◌, Bytes, List, Option, arith, inl, inr, Bool-cases, subst}
use lts_agent.Go.Errors.{Result, Result-cases}
use lts_agent.Client.Net.{Request}
use lts_agent.Client.{Client, do_json_with_bearer}
use lts_agent.Client.Origin.{Sent, unsent, sent, do_json_with_bearer-Sent}
use lts_agent.Go.Json.Value.{Value}
use lts_agent.Inventory.{Report, Core, Warning}
use lts_agent.Sync.Files.{Options, Dependencies, inspect_state, load_state}
use lts_agent.Sync.Token.{StateDocument}
use lts_agent.Sync.Atomic.{Keeps, continue-Keeps}
use lts_agent.Sync.{heartbeat, desired_state, observe, report_in}

-- The documented behaviour of the calls that look at files towards a statement `P` about the
-- outside world: they do not change whether it holds.
pub record SparesReads {W : Type 0} (deps : Dependencies W) (P : W → Type 0) : Type 0 where
  pub read_file : (path : Bytes) → Keeps P (deps.read_file path)
  pub lstat : (path : Bytes) → Keeps P (deps.lstat path)

-- The same of the clock and the network.
pub record SparesNetwork {W : Type 0} (client : Client W) (deps : Dependencies W) (P : W → Type 0)
    : Type 0 where
  pub now : (w : W) → P w → P (deps.now w).1
  pub send : (r : Request) → Keeps P (client.web.send r)

module _ {W : Type 0} (options : Options) (deps : Dependencies W) (P : W → Type 0)
    (calm : SparesReads deps P) where
  inspect_state-after :
      (w : W) → (deps.lstat options.state_file w).1 ≡ (inspect_state options deps w).1
  unfolding inspect_state
  inspect_state-after w = elim (Result-cases (deps.lstat options.state_file w).0) [
    | inl (info, e) ↦ ground arith
    | inr (e, f) ↦ ground arith
  ]

  pub load_state-Keeps : Keeps P (load_state options deps)
  unfolding load_state
  load_state-Keeps w p =
      let q = subst P (inspect_state-after w) (calm.lstat options.state_file w p) in
      continue-Keeps P _ _ _ q (λ info _. continue-Keeps P _ _ _ q (λ _ _.
        let r = calm.read_file options.state_file _ q in continue-Keeps P _ _ _ r (λ _ _. r)))

module _ {W : Type 0} (client : Client W) (options : Options) (deps : Dependencies W)
    (P : W → Type 0) (net : SparesNetwork client deps P) where
  module _ {A : Type 0} (method endpoint bearer : Bytes) (body : Option Value)
      (target : Bytes → Result A) (w : W) where
    Sent-Keeps :
        {x : Result A × W} → Sent client method endpoint bearer body target w x → P w → P x.1
    Sent-Keeps (unsent e) p = p
    Sent-Keeps (sent r a valid addressed) p = net.send r w p

    pub do_json_with_bearer-Keeps :
        P w → P (do_json_with_bearer client method endpoint bearer body target w).1
    do_json_with_bearer-Keeps =
        Sent-Keeps (do_json_with_bearer-Sent client method endpoint bearer body target w)

  heartbeat-Keeps :
      (report : Report) (state : StateDocument)
      → Keeps P (heartbeat client options deps report state)
  unfolding heartbeat
  heartbeat-Keeps report state w p = do_json_with_bearer-Keeps _ _ _ _ _ _ (net.now w p)

  desired_state-Keeps : (state : StateDocument) → Keeps P (desired_state client options deps state)
  unfolding desired_state
  desired_state-Keeps state w p = do_json_with_bearer-Keeps _ _ _ _ _ w p

  observe-Keeps :
      (result : Core) (warnings : List Warning) (state : StateDocument) (w : W)
      → P w
      → P (observe client options deps result warnings state w).1
  unfolding observe
  observe-Keeps result warnings state w p = desired_state-Keeps state w p

  pub report_in-Keeps :
      (report : Report) (result : Core) (warnings : List Warning) (state : StateDocument) (w : W)
      → P w
      → P (report_in client options deps report result warnings state w).1
  unfolding report_in
  report_in-Keeps report result warnings state w p =
      let q = heartbeat-Keeps report state w p in
      elim (Bool-cases (deps.cancelled (heartbeat client options deps report state w).1)) [
        | inl e ↦ rw e q
        | inr e ↦ rw e (observe-Keeps _ _ state _ q)
      ]
