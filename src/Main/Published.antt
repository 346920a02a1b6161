-- ===== src/Main/Published.antt =====
-- What the program of cmd/lts-agent/main.go writes to stdout, across all of its parts.
use mathlib.Core.List.{concat-ne-nil}
use lts_agent.Base.{
  ◌≡◌, refl, subst, sym, ◌∙◌, ap, true, false, List, [], ◌∷◌, ◌++◌, Option, some, lit, inl, inr,
  Bool-cases, if-cases, append-empty,
}
use lts_agent.Go.Errors.{Result, ok, err, error_text}
use lts_agent.Go.Action.{continue-ensures}
use lts_agent.Inventory.{Report, Core, DesiredState, Warning}
use lts_agent.Desired
use lts_agent.Desired.{Document}
use lts_agent.Config.{Config}
use lts_agent.Sync.Stages.{IsCoherent, IsCoherent-started, IsCoherent-disabled}
use lts_agent.Sync.Outcome.{sync-IsCoherent}
use lts_agent.Sync
use lts_agent.Sync.{Outcome, empty_desired_state, synchronizer, sync}
use lts_agent.Agent.{collect_report}
use lts_agent.App.{CoreSynchronizer, ensured, ensure_desired_state}
use lts_agent.App.Exit.{IsComplete, IsRun, HasCore, run-ensures, synchronize-IsComplete}
use lts_agent.App.Run.{synchronize, with_synchronizer, failed_core, disabled_core}
use lts_agent.Client.{Client}
use lts_agent.Sync.Enabled.{sync-enabled}
use lts_agent.Sync.Files.{with_defaults}
use lts_agent.Main.{
  sync_options, Outside, runner, as_synchronizer, core_synchronizer, application, main,
}

-- A report that tells of Core what the configuration says, and whose parts hang together.
pub record IsPublished (c : Config) (report : Report) : Type 0 where
  pub complete : IsComplete report
  pub shown_core : Core
  pub core_is : report.core ≡ some shown_core
  pub enabled_is : shown_core.enabled ≡ c.core.enabled
  pub coherent : IsCoherent (shown_core, report.desired_state, report.warnings)

ensured-shown : (o : Outcome) → IsCoherent o → o.1 ≡ some (ensured o.1)
unfolding Desired.inventory
ensured-shown (core, d, warnings) h = elim (Bool-cases h.shown.available) [
  | inr off ↦
      subst (λ x. x ≡ some (ensured x)) (sym (h.shown_is ∙ ap some (h.unavailable off))) refl
  | inl on ↦
      let (doc, _, e) = h.sound on in
      subst (λ x. x ≡ some (ensured x)) (sym (h.shown_is ∙ ap some e)) refl
]

-- Coherence allows any further warnings.
IsCoherent-more :
    (core : Core) (d : Option DesiredState) (few many : List Warning)
    → (many ≡ [] → few ≡ [])
    → IsCoherent (core, d, few)
    → IsCoherent (core, d, many)
IsCoherent-more core d few many k h = record {
  shown = h.shown;
  shown_is = h.shown_is;
  available_iff = h.available_iff;
  unavailable = h.unavailable;
  sound = h.sound;
  heartbeat_is = h.heartbeat_is;
  registered_id = h.registered_id;
  unregistered = h.unregistered;
  silent = λ e. h.silent (k e);
}

-- The report before the synchronization.
IsFresh : Report → Type 0
IsFresh report = report.desired_state ≡ some empty_desired_state

ensured-IsFresh : (report : Report) → IsFresh report → IsFresh (ensure_desired_state report)
unfolding IsFresh ensure_desired_state
ensured-IsFresh report h = rw h refl

module _ {W Pool : Type 0} (outside : Outside W Pool) where
  runner-IsFresh : (c : Config) (w : W) → IsFresh (runner outside c w).0
  unfolding runner collect_report IsFresh
  runner-IsFresh c w = refl

  core_synchronizer-made :
      (c : Config) (w : W) (s : CoreSynchronizer W)
      → (core_synchronizer outside c w).0 ≡ ok s
      → (client : Client W) × (s ≡ as_synchronizer outside c client)
  unfolding core_synchronizer
  core_synchronizer-made c w =
      continue-ensures (λ s. (client : Client W) × (s ≡ as_synchronizer outside c client)) _ _ _
        (λ client _ s h. (client, sym (let e : as_synchronizer outside c client ≡ s = cc in e)))

  core_synchronizer-HasCore :
      (c : Config) (w : W) (s : CoreSynchronizer W)
      → (core_synchronizer outside c w).0 ≡ ok s
      → HasCore s
  core_synchronizer-HasCore c w s h =
      let (client, e) = core_synchronizer-made c w s h in
      subst HasCore (sym e) (λ report w. (_, refl))

  -- What is published of a report before the synchronization.
  IsFine : Config → Report → Type 0
  IsFine c report =
      (core : Core) × (report.core ≡ some core)
      × (core.enabled ≡ c.core.enabled)
      × IsCoherent (core, report.desired_state, report.warnings)

  synced-IsFine :
      (c : Config) (client : Client W) (report : Report) (w : W)
      → c.core.enabled ≡ true
      → IsFine c (with_synchronizer report (ok (as_synchronizer outside c client)) w).0
  unfolding IsFine with_synchronizer ensure_desired_state synchronizer with_defaults lit
  synced-IsFine c client report w on =
      let options = with_defaults (sync_options c) in
      let o = (sync client options outside.sync report w).0 in
      let h = sync-IsCoherent client options outside.sync report w in
      (
        o.0,
        refl,
        sync-enabled client options outside.sync report w ∙ sym on,
        IsCoherent-more o.0 _ o.2 _ (λ e. (append-empty report.warnings o.2 e).1)
            (subst (λ d. IsCoherent (o.0, d, o.2)) (ensured-shown o h) h),
      )

  with_synchronizer-IsFine :
      (c : Config) (report : Report) (built : Result (CoreSynchronizer W)) (w : W)
      → IsFresh report
      → c.core.enabled ≡ true
      → ((s : CoreSynchronizer W)
          → built ≡ ok s
          → (client : Client W) × (s ≡ as_synchronizer outside c client))
      → IsFine c (with_synchronizer report built w).0
  unfolding IsFine with_synchronizer IsFresh
  with_synchronizer-IsFine c report (ok s) w fresh on made =
      let (client, e) = made s refl in
      subst (λ t. IsFine c (with_synchronizer report (ok t) w).0) (sym e)
        (synced-IsFine c client report w on)
  with_synchronizer-IsFine c report (err e) w fresh on made =
      let warning : Warning = record { source = lit "core.client"; message = error_text e } in
      (
        failed_core,
        refl,
        sym on,
        subst (λ d. IsCoherent (failed_core, d, report.warnings ++ (warning ∷ []))) (sym fresh)
            (IsCoherent-more failed_core (some empty_desired_state) (warning ∷ []) _
              (λ e. absurd (concat-ne-nil _ report.warnings e))
              (IsCoherent-started false warning [])),
      )

  synchronize-IsFine :
      (c : Config) (report : Report) (w : W)
      → IsFresh report
      → IsFine c (synchronize (application outside) c report w).0
  unfolding synchronize IsFine IsFresh Sync.disabled_core
  synchronize-IsFine c report w fresh =
      if-cases (λ (r : Report × W). IsFine c r.0) c.core.enabled
        (λ on.
          with_synchronizer-IsFine c report (core_synchronizer outside c w).0 _ fresh on
            (core_synchronizer-made c w))
        (λ off. (
          disabled_core,
          refl,
          sym off,
          subst (λ d. IsCoherent (disabled_core, d, report.warnings)) (sym fresh)
              (IsCoherent-more disabled_core _ [] _ (λ _. refl) IsCoherent-disabled),
        ))

  synchronize-IsPublished :
      (c : Config) (w w' : W)
      → IsPublished c
          (synchronize (application outside) c (ensure_desired_state (runner outside c w).0) w').0
  unfolding IsFine
  synchronize-IsPublished c w w' =
      let (core, core_is, enabled_is, coherent) =
        synchronize-IsFine c _ w' (ensured-IsFresh _ (runner-IsFresh c w)) in
      record {
        complete =
            synchronize-IsComplete (application outside) c _ w' (core_synchronizer-HasCore c w');
        shown_core = core;
        core_is = core_is;
        enabled_is = enabled_is;
        coherent = coherent;
      }

  -- Whatever the files, the processes, the network and the clock do, the program ends with exit
  -- code 0 or 1 and without a panic. It ends with 0 only if it wrote the JSON of a report to
  -- stdout without an error, and the report that it wrote says of Core what the configuration
  -- says, has a core and a desired state, and is coherent: a heartbeat was attempted exactly for a
  -- registered node, a desired state is shown exactly if it was retrieved and is then sound, and no
  -- stage has failed without a warning.
  pub main-IsRun : (w : W) → IsRun (application outside) IsPublished w (main outside w)
  unfolding main
  main-IsRun w =
      run-ensures (application outside) IsPublished (λ c r p. p.complete) w
        (λ c w' w'' _. synchronize-IsPublished c w' w'')
