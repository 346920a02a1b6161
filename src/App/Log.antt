-- ===== src/App/Log.antt =====
-- The errors that `Run` of internal/app/app.go logs.
use lts_agent.Base.{
  ℕ, ◌≡◌, refl, subst, ◌∙◌, Bool, true, false, Bytes, List, [], ◌∷◌, ◌++◌, Option, none, some,
  arith, inl, inr, if◌then◌else◌, if-ensures, Option-cases,
}
use lts_agent.Go.Errors.{Result, ok, err, Result-cases}
use lts_agent.Inventory.{Report, Core, Warning}
use lts_agent.Config.{Config, Level, level_debug, level_info, level_warn, level_error}
use lts_agent.App.{App, Finished, exited, panicked, Entry, Logger, Attribute, log_at}
use lts_agent.App.Run.{
  log_loaded, log_sync_started, log_warnings, log_synced, log_completed, log_sync_completed,
  opening, run_logger, bare_logger, refuse, complete, written, output, publish, run_with,
  loaded_config, run,
}

is_error : Level → Bool
is_error level_error = true
is_error _ = false

-- The error lines of a log.
unfoldable pub failures : List Entry → List Entry
unfolding is_error
failures [] = []
failures (e ∷ log) = let rest = failures log in if is_error e.level then e ∷ rest else rest

failures-append : (a b : List Entry) → failures (a ++ b) ≡ failures a ++ failures b
unfolding failures
failures-append [] b = refl
failures-append (e ∷ a) b = ground (arith, failures-append a b)

-- How a run ended, and the errors that it logged.
pub data IsLogged {W : Type 0} (f : Finished W) : Type 0 where
  quiet : f.ending ≡ exited 0 → failures f.log ≡ [] → IsLogged f
  loud : f.ending ≡ exited 1 → (e : Entry) → failures f.log ≡ e ∷ [] → IsLogged f
  crashed : f.ending ≡ panicked → IsLogged f

-- A log without errors.
record IsCalm (log : List Entry) : Type 0 where
  calm : failures log ≡ []

empty-IsCalm : IsCalm []
unfolding failures
empty-IsCalm = record { calm = refl }

append-IsCalm : (a b : List Entry) → IsCalm a → IsCalm b → IsCalm (a ++ b)
append-IsCalm a b h k = record { calm = rw (failures-append a b, h.calm) k.calm }

single-IsCalm : (e : Entry) → is_error e.level ≡ false → IsCalm (e ∷ [])
unfolding failures
single-IsCalm e h = record { calm = ground (arith, h) }

module _ (logger : Logger) (message : Bytes) (attributes : List (Bytes × Attribute)) where
  info-IsCalm : IsCalm (log_at level_info logger message attributes)
  unfolding log_at is_error
  info-IsCalm = if-ensures IsCalm _ (single-IsCalm _ refl) empty-IsCalm

  warn-IsCalm : IsCalm (log_at level_warn logger message attributes)
  unfolding log_at is_error
  warn-IsCalm = if-ensures IsCalm _ (single-IsCalm _ refl) empty-IsCalm

  -- An error is logged at every level.
  failures-log_at :
      (level : Level)
      → level ≡ logger.level
      → (e : Entry) × (failures (log_at level_error logger message attributes) ≡ e ∷ [])
  unfolding log_at failures is_error
  failures-log_at level_debug h = rw⁻¹ h (_, refl)
  failures-log_at level_info h = rw⁻¹ h (_, refl)
  failures-log_at level_warn h = rw⁻¹ h (_, refl)
  failures-log_at level_error h = rw⁻¹ h (_, refl)

  failed-IsLogged :
      {W : Type 0} (log : List Entry) (w : W)
      → IsCalm log
      → IsLogged (record {
        ending = exited 1;
        log = log ++ log_at level_error logger message attributes;
        world = w;
      })
  failed-IsLogged log w h =
      let (entry, k) = failures-log_at logger.level refl in
      loud refl entry
        (failures-append log (log_at level_error logger message attributes) ∙ rw h.calm k)

log_warnings-IsCalm : (logger : Logger) (ws : List Warning) → IsCalm (log_warnings logger ws)
unfolding log_warnings
log_warnings-IsCalm logger [] = empty-IsCalm
log_warnings-IsCalm logger (w ∷ ws) =
    append-IsCalm _ _ (warn-IsCalm logger _ _) (log_warnings-IsCalm logger ws)

log_loaded-IsCalm :
    (logger : Logger) (path : Bytes) (c : Config) (loaded : Bool)
    → IsCalm (log_loaded logger path c loaded)
unfolding log_loaded
log_loaded-IsCalm logger path c loaded =
    if-ensures IsCalm loaded (info-IsCalm logger _ _) (info-IsCalm logger _ _)

log_sync_started-IsCalm : (logger : Logger) (c : Config) → IsCalm (log_sync_started logger c)
unfolding log_sync_started failures
log_sync_started-IsCalm logger c =
    if-ensures IsCalm c.core.enabled (info-IsCalm logger _ _) empty-IsCalm

log_sync_completed-IsCalm :
    (logger : Logger) (c : Config) (core : Option Core) (entries : List Entry)
    → log_sync_completed logger c core ≡ some entries
    → IsCalm entries
unfolding log_sync_completed log_synced
log_sync_completed-IsCalm logger c none entries =
    if-ensures (λ o. o ≡ some entries → IsCalm entries) c.core.enabled (λ h. absurd (cc))
      (λ h. subst IsCalm (cc) empty-IsCalm)
log_sync_completed-IsCalm logger c (some core) entries =
    if-ensures (λ o. o ≡ some entries → IsCalm entries) c.core.enabled
      (λ h.
        let same : log_synced logger core ≡ entries = cc in
        subst IsCalm same (info-IsCalm logger _ _))
      (λ h. subst IsCalm (cc) empty-IsCalm)

module _ {W : Type 0} (app : App W) where
  complete-IsLogged :
      (logger : Logger) (started_at : ℕ) (report : Report) (log : List Entry) (w : W)
      → IsCalm log
      → IsLogged (complete app logger started_at report log w)
  unfolding complete log_completed
  complete-IsLogged logger started_at report log w h = elim (Option-cases report.core) [
    | inl e ↦ rw e (crashed refl)
    | inr (core, e) ↦ elim (Option-cases report.desired_state) [
      | inl f ↦ rw (e, f) (crashed refl)
      | inr (d, f) ↦ rw (e, f) (quiet refl (append-IsCalm log _ h (info-IsCalm logger _ _)).calm)
    ]
  ]

  written-IsLogged :
      (logger : Logger) (started_at : ℕ) (report : Report) (log : List Entry)
      (result : Result (Unit {0})) (w : W)
      → IsCalm log
      → IsLogged (written app logger started_at report log result w)
  unfolding written
  written-IsLogged logger started_at report log (ok _) w h =
      complete-IsLogged logger started_at report log w h
  written-IsLogged logger started_at report log (err e) w h = failed-IsLogged logger _ _ log w h

  publish-IsLogged :
      (c : Config) (started_at : ℕ) (report : Report) (log : List Entry) (w : W)
      → IsCalm log
      → IsLogged (publish app c started_at report log w)
  unfolding publish output
  publish-IsLogged c started_at report log w h =
      let warned =
        append-IsCalm log (log_warnings (run_logger c) report.warnings) h
          (log_warnings-IsCalm (run_logger c) report.warnings) in
      elim (Option-cases (log_sync_completed (run_logger c) c report.core)) [
        | inl e ↦ rw (publish, e) (crashed refl)
        | inr (entries, e) ↦
            rw (publish, e)
              (written-IsLogged _ started_at report _ _ _ (
                append-IsCalm _ entries warned
                  (log_sync_completed-IsCalm (run_logger c) c report.core entries e)))
      ]

  opening-IsCalm : (c : Config) (loaded : Bool) → IsCalm (opening app c loaded)
  opening-IsCalm c loaded =
      append-IsCalm _ _ (log_loaded-IsCalm (run_logger c) app.config_path c loaded) (
        append-IsCalm _ _ (info-IsCalm (run_logger c) _ _)
          (log_sync_started-IsCalm (run_logger c) c))

  -- Whatever the level of the configuration, a run that ends with exit code 1 has logged exactly
  -- one error, and a run that ends with exit code 0 has logged none; otherwise it panicked.
  pub run-IsLogged : (w : W) → IsLogged (run app w)
  unfolding run loaded_config refuse run_with
  run-IsLogged w = elim (Result-cases (app.load_config w).0.0) [
    | inr (e, f) ↦ rw f (failed-IsLogged bare_logger _ _ [] _ empty-IsCalm)
    | inl (c, f) ↦ rw f (publish-IsLogged c _ _ _ _ (opening-IsCalm c (app.load_config w).0.1))
  ]
