-- ===== src/Sync/Outcome.antt =====
-- What `Sync` of internal/coresync/sync.go returns, on every path.
use lts_agent.Base.{◌≡◌, refl, ◌∙◌, true, false, List, [], lit, inl, inr, if-ensures, Bool-cases}
use lts_agent.Go.Errors.{Result, ok, err, is_state_not_found}
use lts_agent.Client.{Client}
use lts_agent.Client.Origin.{do_json_with_bearer-target, into-value}
use lts_agent.Desired
use lts_agent.Desired.{Document}
use lts_agent.Desired.Sound.{IsSound, unmarshal-IsSound}
use lts_agent.Inventory.{Report, Core, Warning}
use lts_agent.Sync.Files.{Options, Dependencies, load_state}
use lts_agent.Sync.Token.{StateDocument}
use lts_agent.Sync.Identity.{IsState}
use lts_agent.Sync.States.{load_state-IsState, register-IsState}
use lts_agent.Sync.Stages.{
  IsCoherent, IsRegistered, ne_failed, IsCoherent-disabled, IsCoherent-started, observed-IsCoherent,
  beaten-IsRegistered, IsCoherent-cancelled, beaten-desired_state,
}
use lts_agent.Sync.{
  Outcome, enrolled, operation, desired_state, heartbeat, observe, report_in, enroll, resume, sync,
  register,
}

module _ {W : Type 0} (client : Client W) (options : Options) (deps : Dependencies W) where
  desired_state-IsSound :
      (state : StateDocument) (w : W) (d : Document)
      → (desired_state client options deps state w).0 ≡ ok d
      → IsSound d
  unfolding desired_state
  desired_state-IsSound state w d h =
      let (body, e) = do_json_with_bearer-target client _ _ _ _ _ w d h in
      let (v, f) = into-value Desired.unmarshal body d e in unmarshal-IsSound v d f

  report_in-IsCoherent :
      (report : Report) (result : Core) (warnings : List Warning) (state : StateDocument) (w : W)
      → IsRegistered result warnings
      → result.desired_state ≡ operation false (lit "skipped")
      → IsCoherent (report_in client options deps report result warnings state w).0
  unfolding report_in observe
  report_in-IsCoherent report result warnings state w r d =
      let reply = heartbeat client options deps report state w in
      let (r', h) = beaten-IsRegistered result warnings reply.0 r in
      elim (Bool-cases (deps.cancelled reply.1)) [
        | inl e ↦
            rw e (IsCoherent-cancelled _ _ r' h (beaten-desired_state result warnings reply.0 ∙ d))
        | inr e ↦ rw e (observed-IsCoherent _ _ _ r' h (desired_state-IsSound state reply.1))
      ]

  enrolled-IsCoherent :
      (report : Report) (reply : Result StateDocument) (w : W)
      → ((s : StateDocument) → reply ≡ ok s → IsState s)
      → IsCoherent (enrolled client options deps report reply w).0
  unfolding enrolled
  enrolled-IsCoherent report (err e) w k = IsCoherent-started true _ []
  enrolled-IsCoherent report (ok s) w k =
      report_in-IsCoherent report _ _ s _
        (record {
          is_registered = refl;
          id = (k s refl).node_id;
          quiet = λ e. (ne_failed.0, ne_failed.1);
        })
        refl

  resume-IsCoherent :
      (report : Report) (loaded : Result StateDocument) (w : W)
      → ((s : StateDocument) → loaded ≡ ok s → IsState s)
      → IsCoherent (resume client options deps report loaded w).0
  unfolding resume enroll
  resume-IsCoherent report (ok s) w k =
      report_in-IsCoherent report _ _ s w
        (record {
          is_registered = refl;
          id = (k s refl).node_id;
          quiet = λ e. (ne_failed.3, ne_failed.1);
        })
        refl
  resume-IsCoherent report (err e) w k = elim (Bool-cases (is_state_not_found e)) [
    | inl found ↦ rw found (
        enrolled-IsCoherent report (register client options deps report w).0 _
          (register-IsState client options deps report w))
    | inr other ↦ rw other (IsCoherent-started false _ [])
  ]

  -- Whatever the files, the network and the clock do, `Sync` returns a coherent result: it always
  -- has a desired state, available exactly when its retrieval succeeded and then a validated
  -- document, empty otherwise; a heartbeat is attempted exactly for a registered node, whose id is
  -- well formed; and a stage has failed only if there is a warning.
  pub sync-IsCoherent : (report : Report) (w : W) → IsCoherent (sync client options deps report w).0
  unfolding sync
  sync-IsCoherent report w =
      if-ensures (λ (r : Outcome × W). IsCoherent r.0) options.enabled
        (resume-IsCoherent report (load_state options deps w).0 _
          (load_state-IsState client options deps w))
        IsCoherent-disabled
