-- ===== src/App/Exit.antt =====
-- How `Run` of internal/app/app.go ends, and what stands on stdout then.
use lts_agent.Base.{◌≡◌, refl, Bytes, List, [], Option, none, some, inl, inr, if-ensures}
use lts_agent.Go.Errors.{Error, Result, ok, err, Result-cases}
use lts_agent.Inventory.{Report, Core, DesiredState}
use lts_agent.Config.{Config}
use lts_agent.Agent.{filled}
use lts_agent.Agent.Output.{report_text, write_report_json}
use lts_agent.App.{
  App, CoreSynchronizer, Finished, exited, Entry, Logger, ensured, ensure_desired_state,
}
use lts_agent.App.Run.{
  with_synchronizer, log_sync_completed, refuse, synchronize, complete, written, output, publish,
  run_with, loaded_config, run, run_logger,
}

-- A report in which no pointer and neither list of the desired state is nil.
pub record IsComplete (report : Report) : Type 0 where
  pub present : Core
  pub core : report.core ≡ some present
  pub shown : DesiredState
  pub desired_state : report.desired_state ≡ some shown
  pub role_names : List Bytes
  pub roles : shown.roles ≡ some role_names
  pub capability_names : List Bytes
  pub capabilities : shown.capabilities ≡ some capability_names

-- A synchronizer that never returns a nil pointer to a core.
abbrev pub HasCore : {W : Type 0} → CoreSynchronizer W → Type 0
HasCore {W} synchronize =
    (report : Report) (w : W) → (core : Core) × ((synchronize report w).0.0 ≡ some core)

filled-some : (names : Option (List Bytes)) → (l : List Bytes) × (filled names ≡ some l)
filled-some none = ([], refl)
filled-some (some l) = (l, refl)

ensured-roles : (d : Option DesiredState) → (l : List Bytes) × ((ensured d).roles ≡ some l)
ensured-roles none = ([], refl)
ensured-roles (some d) = filled-some d.roles

ensured-capabilities :
    (d : Option DesiredState) → (l : List Bytes) × ((ensured d).capabilities ≡ some l)
ensured-capabilities none = ([], refl)
ensured-capabilities (some d) = filled-some d.capabilities

-- A report with a core and a desired state that was ensured.
IsComplete-ensured :
    (report : Report) (core : Core) (d : Option DesiredState)
    → report.core ≡ some core
    → report.desired_state ≡ some (ensured d)
    → IsComplete report
IsComplete-ensured report core d h k =
    let (role_names, roles) = ensured-roles d in
    let (capability_names, capabilities) = ensured-capabilities d in
    record {
      present = core;
      core = h;
      shown = ensured d;
      desired_state = k;
      role_names = role_names;
      roles = roles;
      capability_names = capability_names;
      capabilities = capabilities;
    }

with_synchronizer-IsComplete :
    {W : Type 0} (collected : Report) (built : Result (CoreSynchronizer W)) (w : W)
    → ((s : CoreSynchronizer W) → built ≡ ok s → HasCore s)
    → IsComplete (with_synchronizer (ensure_desired_state collected) built w).0
unfolding with_synchronizer ensure_desired_state
with_synchronizer-IsComplete collected (err e) w h =
    IsComplete-ensured _ _ collected.desired_state refl refl
with_synchronizer-IsComplete collected (ok s) w h =
    let (core, e) = h s refl (ensure_desired_state collected) w in
    IsComplete-ensured _ core (s (ensure_desired_state collected) w).0.1 e refl

log_sync_completed-some :
    (logger : Logger) (c : Config) (core : Option Core) (present : Core)
    → core ≡ some present
    → (entries : List Entry) × (log_sync_completed logger c core ≡ some entries)
unfolding log_sync_completed
log_sync_completed-some logger c none present h = cc
log_sync_completed-some logger c (some core) present h =
    if-ensures (λ o. (entries : List Entry) × (o ≡ some entries)) c.core.enabled (_, refl)
      ([], refl)

-- The outcome of a run that starts in `w`. `P` is what holds of the report that is written under a
-- configuration.
pub data IsRun {W : Type 0} (app : App W) (P : Config → Report → Type 0) (w : W)
    : Finished W → Type 0 where
  refused :
      (e : Error) (f : Finished W)
      → (app.load_config w).0.0 ≡ err e
      → f.world ≡ (app.load_config w).1
      → f.ending ≡ exited 1
      → IsRun app P w f
  unwritten :
      (c : Config) (report : Report) (w' : W) (e : Error) (f : Finished W)
      → (app.load_config w).0.0 ≡ ok c
      → P c report
      → (app.stdout (report_text report) w').0 ≡ err e
      → f.world ≡ (app.stdout (report_text report) w').1
      → f.ending ≡ exited 1
      → IsRun app P w f
  delivered :
      (c : Config) (report : Report) (w' : W) (f : Finished W)
      → (app.load_config w).0.0 ≡ ok c
      → P c report
      → (app.stdout (report_text report) w').0 ≡ ok tt
      → f.world ≡ (app.now (app.stdout (report_text report) w').1).1
      → f.ending ≡ exited 0
      → IsRun app P w f

module _ {W : Type 0} (app : App W) where
  complete-exited :
      (logger : Logger) (started_at : _) (report : Report) (log : List Entry) (w : W)
      → IsComplete report
      → ((complete app logger started_at report log w).ending ≡ exited 0)
        × ((complete app logger started_at report log w).world ≡ (app.now w).1)
  unfolding complete
  complete-exited logger started_at report log w c = rw (c.core, c.desired_state) (refl, refl)

  module _ (P : Config → Report → Type 0) (w : W) (c : Config)
      (loaded : (app.load_config w).0.0 ≡ ok c) (report : Report) (p : P c report)
      (h : IsComplete report) where
    output-IsRun :
        (logger : Logger) (started_at : _) (log : List Entry) (w' : W)
        → IsRun app P w (output app logger started_at report log w')
    unfolding output written write_report_json
    output-IsRun logger started_at log w' =
        elim (Result-cases (app.stdout (report_text report) w').0) [
          | inl (u, e) ↦ rw e (
              let (code, world) =
                complete-exited logger started_at report log (app.stdout (report_text report) w').1
                  h in
              delivered c report w' _ loaded p e world code)
          | inr (f, e) ↦ rw e (unwritten c report w' f _ loaded p e refl refl)
        ]

    publish-IsRun :
        (started_at : _) (log : List Entry) (w' : W)
        → IsRun app P w (publish app c started_at report log w')
    unfolding publish
    publish-IsRun started_at log w' =
        let (entries, e) = log_sync_completed-some (run_logger c) c report.core h.present h.core in
        rw (publish, e) (output-IsRun _ started_at _ w')

  -- What holds of every report that is collected and synchronized holds of what a run writes.
  pub run-ensures :
      (P : Config → Report → Type 0)
      → ((c : Config) (r : Report) → P c r → IsComplete r)
      → (w : W)
      → ((c : Config) (w' w'' : W)
          → (app.load_config w).0.0 ≡ ok c
          → P c (synchronize app c (ensure_desired_state (app.new_runner c w').0) w'').0)
      → IsRun app P w (run app w)
  unfolding run loaded_config refuse run_with
  run-ensures P complete w k = elim (Result-cases (app.load_config w).0.0) [
    | inr (e, f) ↦ rw f (refused e _ f refl refl)
    | inl (c, f) ↦ rw f (let p = k c _ _ f in publish-IsRun P w c f _ p (complete c _ p) _ _ _)
  ]

  pub synchronize-IsComplete :
      (c : Config) (collected : Report) (w : W)
      → ((s : CoreSynchronizer W) → (app.new_core_synchronizer c w).0 ≡ ok s → HasCore s)
      → IsComplete (synchronize app c (ensure_desired_state collected) w).0
  unfolding synchronize ensure_desired_state
  synchronize-IsComplete c collected w h =
      if-ensures (λ (r : Report × W). IsComplete r.0) c.core.enabled
        (with_synchronizer-IsComplete collected _ _ h)
        (IsComplete-ensured _ _ collected.desired_state refl refl)

  -- With a factory whose synchronizers never return a nil core, a run ends with exit code 0 or 1
  -- and never with a panic. The code is 0 only if the JSON of a report was written without an
  -- error, and that report has a core and a desired state with both lists; the code is 1 if the
  -- configuration was refused, and then nothing else was done, or if that writing failed.
  pub run-IsRun :
      ((c : Config) (w : W) (s : CoreSynchronizer W)
        → (app.new_core_synchronizer c w).0 ≡ ok s
        → HasCore s)
      → (w : W) → IsRun app (λ c. IsComplete) w (run app w)
  run-IsRun h w =
      run-ensures (λ c. IsComplete) (λ c r p. p) w
        (λ c w' w'' _. synchronize-IsComplete c _ w'' (h c w''))
