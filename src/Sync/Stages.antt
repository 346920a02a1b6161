-- ===== src/Sync/Stages.antt =====
-- The result of each stage of `Sync` in internal/coresync/sync.go.
use lts_agent.Base.{◌≡◌, ◌≢◌, refl, ◌↔◌, Bool, true, false, List, [], ◌∷◌, some, lit}
use mathlib.Core.List.{concat-ne-nil}
use lts_agent.Go.Errors.{Result, ok, err}
use lts_agent.Desired
use lts_agent.Desired.{Document}
use lts_agent.Desired.Sound.{IsSound}
use lts_agent.Inventory.{Core, DesiredState, Warning}
use lts_agent.Sync.Identity.{IsNodeId}
use lts_agent.Sync.{
  Outcome, observed, beaten, operation, empty_desired_state, disabled_core, started,
}

-- The result of a cycle hangs together.
pub record IsCoherent (o : Outcome) : Type 0 where
  pub shown : DesiredState
  -- There always is a desired state; it is available exactly when its retrieval succeeded.
  pub shown_is : o.1 ≡ some shown
  pub available_iff : (shown.available ≡ true) ↔ (o.0.desired_state.status ≡ lit "succeeded")
  pub unavailable : shown.available ≡ false → shown ≡ empty_desired_state
  pub sound : shown.available ≡ true → (d : Document) × IsSound d × (shown ≡ Desired.inventory d)
  -- A heartbeat is attempted exactly by a registered node.
  pub heartbeat_is : o.0.heartbeat.attempted ≡ o.0.registered
  pub registered_id : o.0.registered ≡ true → IsNodeId o.0.node_id
  pub unregistered :
      o.0.registered ≡ false → (o.0.node_id ≡ []) × (o.0.desired_state.attempted ≡ false)
  -- Without a warning no stage has failed.
  pub silent :
      o.2 ≡ []
      → (o.0.registration.status ≢ lit "failed")
        × (o.0.heartbeat.status ≢ lit "failed")
        × (o.0.desired_state.status ≢ lit "failed")

-- The statuses are different texts.
pub failed_ne :
    (lit "failed" ≢ lit "succeeded")
    × (lit "skipped" ≢ lit "succeeded")
    × (lit "disabled" ≢ lit "succeeded")
unfolding lit
failed_ne = (λ e. cc, λ e. cc, λ e. cc)

pub ne_failed :
    (lit "succeeded" ≢ lit "failed")
    × (lit "skipped" ≢ lit "failed")
    × (lit "disabled" ≢ lit "failed")
    × (lit "not_needed" ≢ lit "failed")
unfolding lit
ne_failed = (λ e. cc, λ e. cc, λ e. cc, λ e. cc)

pub IsCoherent-disabled : IsCoherent (disabled_core, some empty_desired_state, [])
unfolding disabled_core
IsCoherent-disabled = record {
  shown = empty_desired_state;
  shown_is = refl;
  available_iff = (λ e. cc, λ e. absurd (failed_ne.2 e));
  unavailable = λ _. refl;
  sound = λ e. cc;
  heartbeat_is = refl;
  registered_id = λ e. cc;
  unregistered = λ _. (refl, refl);
  silent = λ _. (ne_failed.2, ne_failed.2, ne_failed.2);
}

pub IsCoherent-started :
    (attempted : Bool) (v : Warning) (vs : List Warning)
    → IsCoherent (started (operation attempted (lit "failed")), some empty_desired_state, v ∷ vs)
IsCoherent-started attempted v vs = record {
  shown = empty_desired_state;
  shown_is = refl;
  available_iff = (λ e. cc, λ e. absurd (failed_ne.1 e));
  unavailable = λ _. refl;
  sound = λ e. cc;
  heartbeat_is = refl;
  registered_id = λ e. cc;
  unregistered = λ _. (refl, refl);
  silent = λ e. cc;
}

-- What holds of a registered node before its desired state is retrieved.
pub record IsRegistered (result : Core) (warnings : List Warning) : Type 0 where
  pub is_registered : result.registered ≡ true
  pub id : IsNodeId result.node_id
  pub quiet :
      warnings ≡ []
      → (result.registration.status ≢ lit "failed") × (result.heartbeat.status ≢ lit "failed")

pub observed-IsCoherent :
    (result : Core) (warnings : List Warning) (reply : Result Document)
    → IsRegistered result warnings
    → result.heartbeat.attempted ≡ true
    → ((d : Document) → reply ≡ ok d → IsSound d)
    → IsCoherent (observed result warnings reply)
unfolding observed
observed-IsCoherent result warnings (err e) r h k = record {
  shown = empty_desired_state;
  shown_is = refl;
  available_iff = (λ e. cc, λ e. absurd (failed_ne.0 e));
  unavailable = λ _. refl;
  sound = λ e. cc;
  heartbeat_is = cc (h, r.is_registered);
  registered_id = λ _. r.id;
  unregistered = λ e. absurd (cc (e, r.is_registered));
  silent = λ e. absurd (concat-ne-nil _ warnings e);
}
observed-IsCoherent result warnings (ok d) r h k = record {
  shown = Desired.inventory d;
  shown_is = refl;
  available_iff = (λ _. refl, λ _. unfold Desired.inventory in refl);
  unavailable = λ e. unfold Desired.inventory in cc;
  sound = λ _. (d, k d refl, refl);
  heartbeat_is = cc (h, r.is_registered);
  registered_id = λ _. r.id;
  unregistered = λ e. absurd (cc (e, r.is_registered));
  silent = λ e. ((r.quiet e).0, (r.quiet e).1, ne_failed.0);
}

pub beaten-IsRegistered :
    (result : Core) (warnings : List Warning) (reply : Result (Unit {0}))
    → IsRegistered result warnings
    → IsRegistered (beaten result warnings reply).0 (beaten result warnings reply).1
      × ((beaten result warnings reply).0.heartbeat.attempted ≡ true)
unfolding beaten
beaten-IsRegistered result warnings (err e) r = (
  record {
    is_registered = r.is_registered;
    id = r.id;
    quiet = λ e. absurd (concat-ne-nil _ warnings e);
  },
  refl,
)
beaten-IsRegistered result warnings (ok _) r = (
  record { is_registered = r.is_registered; id = r.id; quiet = λ e. ((r.quiet e).0, ne_failed.0) },
  refl,
)

-- A cycle that is cancelled behind the heartbeat.
pub IsCoherent-cancelled :
    (result : Core) (warnings : List Warning)
    → IsRegistered result warnings
    → result.heartbeat.attempted ≡ true
    → result.desired_state ≡ operation false (lit "skipped")
    → IsCoherent (result, some empty_desired_state, warnings)
IsCoherent-cancelled result warnings r h d = record {
  shown = empty_desired_state;
  shown_is = refl;
  available_iff = (λ e. cc, λ e. absurd (failed_ne.1 (rw d at e)));
  unavailable = λ _. refl;
  sound = λ e. cc;
  heartbeat_is = cc (h, r.is_registered);
  registered_id = λ _. r.id;
  unregistered = λ e. absurd (cc (e, r.is_registered));
  silent = λ e. ((r.quiet e).0, (r.quiet e).1, rw d ne_failed.1);
}

pub beaten-desired_state :
    (result : Core) (warnings : List Warning) (reply : Result (Unit {0}))
    → (beaten result warnings reply).0.desired_state ≡ result.desired_state
unfolding beaten
beaten-desired_state result warnings (err e) = refl
beaten-desired_state result warnings (ok _) = refl
