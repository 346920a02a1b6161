-- ===== src/Sync/Kept.antt =====
-- What the heartbeat and the desired state of internal/coresync/sync.go leave as it is in the
-- result of a cycle.
use lts_agent.Base.{◌≡◌, ◌∙◌, List, if-ensures}
use lts_agent.Go.Errors.{Result, ok, err}
use lts_agent.Client.{Client}
use lts_agent.Desired.{Document}
use lts_agent.Inventory.{Report, Core, Operation, Warning}
use lts_agent.Sync.Files.{Options, Dependencies}
use lts_agent.Sync.Token.{StateDocument}
use lts_agent.Sync.{Outcome, observed, beaten, desired_state, heartbeat, observe, report_in}

module _ {A : Type 0} (part : Core → A)
    (beat : (c : Core) (o : Operation) → part (record c { heartbeat = o }) ≡ part c)
    (seen : (c : Core) (o : Operation) → part (record c { desired_state = o }) ≡ part c) where
  observed-part :
      (result : Core) (warnings : List Warning) (reply : Result Document)
      → part (observed result warnings reply).0 ≡ part result
  unfolding observed
  observed-part result warnings (err e) = seen result _
  observed-part result warnings (ok d) = seen result _

  beaten-part :
      (result : Core) (warnings : List Warning) (reply : Result (Unit {0}))
      → part (beaten result warnings reply).0 ≡ part result
  unfolding beaten
  beaten-part result warnings (err e) = beat result _
  beaten-part result warnings (ok _) = beat result _

  pub report_in-part :
      {W : Type 0} (client : Client W) (options : Options) (deps : Dependencies W) (report : Report)
      (result : Core) (warnings : List Warning) (state : StateDocument) (w : W)
      → part (report_in client options deps report result warnings state w).0.0 ≡ part result
  unfolding report_in observe
  report_in-part client options deps report result warnings state w =
      let reply = heartbeat client options deps report state w in
      let kept = beaten-part result warnings reply.0 in
      if-ensures (λ (r : Outcome × _). part r.0.0 ≡ part result) (deps.cancelled reply.1) kept
        (observed-part _ _ (desired_state client options deps state reply.1).0 ∙ kept)
