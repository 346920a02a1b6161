-- ===== src/App/Run.antt =====
-- `Run` of internal/app/app.go, from the loading of the configuration to the exit code.
use lts_agent.Base.{
  ℕ, Bool, true, false, Bytes, List, [], ◌∷◌, ◌++◌, Option, none, some, lit, if◌then◌else◌, length,
}
use lts_agent.Go.Errors.{Error, error_text, Result, ok, err}
use lts_agent.Go.Numbers.{pos}
use lts_agent.Inventory.{Report, Core, DesiredState, Operation, Warning}
use lts_agent.Config.{Config, level_info, level_warn, level_error, log_level}
use lts_agent.Check.{milliseconds}
use lts_agent.Agent.{version}
use lts_agent.Agent.Output.{write_report_json}
use lts_agent.App.{
  App, CoreSynchronizer, Finished, exited, panicked, Entry, Logger, log_at, int_attribute,
  bool_attribute, about, event, ensure_desired_state,
}

-- An operation that was not attempted.
abbrev unattempted : Bytes → Operation
unattempted status = record { attempted = false; status = status }

-- `report.Core` where no client could be built, and where Core is disabled.
abbrev pub failed_core : Core
failed_core = record {
  enabled = true;
  registered = false;
  node_id = [];
  registration = unattempted (lit "failed");
  heartbeat = unattempted (lit "skipped");
  desired_state = unattempted (lit "skipped");
}

abbrev pub disabled_core : Core
disabled_core = record {
  enabled = false;
  registered = false;
  node_id = [];
  registration = unattempted (lit "disabled");
  heartbeat = unattempted (lit "disabled");
  desired_state = unattempted (lit "disabled");
}

-- The two branches on the result of `NewCoreSynchronizer`.
unfoldable pub with_synchronizer :
    {W : Type 0} → Report → Result (CoreSynchronizer W) → W → Report × W
with_synchronizer report (err e) w = (
  record report {
    core = some failed_core;
    warnings =
        report.warnings ++ (record { source = lit "core.client"; message = error_text e } ∷ []);
  },
  w,
)
with_synchronizer report (ok synchronize) w =
    let ((core, desired_state, core_warnings), w') = synchronize report w in
    let updated =
      ensure_desired_state (record report { core = core; desired_state = desired_state }) in
    (record updated { warnings = updated.warnings ++ core_warnings }, w')

-- The log lines of `Run`, in order.
unfoldable pub log_loaded : Logger → Bytes → Config → Bool → List Entry
log_loaded logger path c loaded =
    if loaded
    then log_at level_info logger (lit "configuration loaded") (
        event (lit "config_loaded")
        ∷ about (lit "path") path
        ∷ (lit "schema_version", int_attribute c.schema_version)
        ∷ [])
    else log_at level_info logger (lit "using default configuration")
        (event (lit "config_defaults_used") ∷ about (lit "path") path ∷ [])

unfoldable pub log_sync_started : Logger → Config → List Entry
log_sync_started logger c =
    if c.core.enabled
    then log_at level_info logger (lit "Core synchronization started")
        (event (lit "core_sync_started") ∷ [])
    else []

unfoldable pub log_warnings : Logger → List Warning → List Entry
log_warnings logger [] = []
log_warnings logger (warning ∷ warnings) =
    log_at level_warn logger (lit "inventory collection warning") (
      event (lit "inventory_warning")
      ∷ about (lit "source") warning.source
      ∷ about (lit "detail") warning.message
      ∷ [])
    ++ log_warnings logger warnings

unfoldable pub log_synced : Logger → Core → List Entry
log_synced logger core = log_at level_info logger (lit "Core synchronization completed") (
    event (lit "core_sync_completed")
    ∷ (lit "registered", bool_attribute core.registered)
    ∷ about (lit "registration_status") core.registration.status
    ∷ about (lit "heartbeat_status") core.heartbeat.status
    ∷ about (lit "desired_state_status") core.desired_state.status
    ∷ [])

unfoldable pub log_completed : Logger → ℕ → ℕ → Report → Core → DesiredState → List Entry
log_completed logger started ended report core desired_state =
    log_at level_info logger (lit "inventory collection completed") (
      event (lit "collection_completed")
      ∷ (lit "duration_ms", int_attribute (milliseconds started ended))
      ∷ (lit "warning_count", int_attribute (pos (length report.warnings)))
      ∷ about (lit "validation_status") report.checks.validation.status
      ∷ about (lit "health_status") report.checks.health.status
      ∷ (lit "core_enabled", bool_attribute core.enabled)
      ∷ (lit "core_registered", bool_attribute core.registered)
      ∷ (lit "desired_state_available", bool_attribute desired_state.available)
      ∷ [])

-- The log after the synchronization; `none` where `report.Core` is nil and its fields are read.
unfoldable pub log_sync_completed : Logger → Config → Option Core → Option (List Entry)
unfolding log_synced
log_sync_completed logger c core =
    if c.core.enabled
    then elim core [ none ↦ none | some present ↦ some (log_synced logger present) ]
    else some []

abbrev finish : {W : Type 0} → ℕ → List Entry → W → Finished W
finish code log w = record { ending = exited code; log = log; world = w }

abbrev panic : {W : Type 0} → List Entry → W → Finished W
panic log w = record { ending = panicked; log = log; world = w }

-- The logger of an invalid configuration.
abbrev pub bare_logger : Logger
bare_logger = record { level = level_info; attributes = [] }

-- The logger of a run.
abbrev pub run_logger : Config → Logger
run_logger c = record {
  level = (log_level c.log_level).0;
  attributes = about (lit "agent_version") version ∷ [];
}

module _ {W : Type 0} (app : App W) where
  unfoldable pub refuse : Error → W → Finished W
  refuse e w =
      finish 1
        (log_at level_error bare_logger (lit "configuration is invalid") (
          event (lit "config_invalid")
          ∷ about (lit "agent_version") version
          ∷ about (lit "path") app.config_path
          ∷ about (lit "detail") (error_text e)
          ∷ []))
        w

  -- The branch on `Core.Enabled`, without its log line.
  unfoldable pub synchronize : Config → Report → W → Report × W
  unfolding with_synchronizer
  synchronize c report w =
      let (built, w') = app.new_core_synchronizer c w in
      if c.core.enabled
      then with_synchronizer report built w'
      else (record report { core = some disabled_core }, w)

  -- `Run` behind the writing of the report.
  unfoldable pub complete : Logger → ℕ → Report → List Entry → W → Finished W
  unfolding log_completed
  complete logger started_at report log w =
      let (ended_at, w') = app.now w in
      elim report.core [
        | none ↦ panic log w'
        | some core ↦ elim report.desired_state [
          | none ↦ panic log w'
          | some d ↦ finish 0 (log ++ log_completed logger started_at ended_at report core d) w'
        ]
      ]

  unfoldable pub written : Logger → ℕ → Report → List Entry → Result (Unit {0}) → W → Finished W
  unfolding complete
  written logger started_at report log (ok _) w = complete logger started_at report log w
  written logger started_at report log (err e) w =
      finish 1
        (log
          ++ log_at level_error logger (lit "inventory output failed")
              (event (lit "inventory_write_failed") ∷ about (lit "detail") (error_text e) ∷ []))
        w

  -- `Run` from the writing of the report on.
  unfoldable pub output : Logger → ℕ → Report → List Entry → W → Finished W
  unfolding written
  output logger started_at report log w =
      let (result, w') = write_report_json report app.stdout w in
      written logger started_at report log result w'

  -- `Run` from the warnings on.
  unfoldable pub publish : Config → ℕ → Report → List Entry → W → Finished W
  unfolding output log_sync_completed log_warnings
  publish c started_at report log w =
      let logger = run_logger c in
      let warned = log ++ log_warnings logger report.warnings in
      elim (log_sync_completed logger c report.core) [
        | none ↦ panic warned w
        | some entries ↦ output logger started_at report (warned ++ entries) w
      ]

  -- The log before the warnings.
  abbrev pub opening : Config → Bool → List Entry
  opening c loaded =
      let logger = run_logger c in
      log_loaded logger app.config_path c loaded
      ++ (log_at level_info logger (lit "inventory collection started")
            (event (lit "collection_started") ∷ [])
          ++ log_sync_started logger c)

  -- `Run` with an effective configuration.
  unfoldable pub run_with : Config → Bool → W → Finished W
  unfolding synchronize publish log_loaded log_sync_started
  run_with c loaded w =
      let (started_at, w1) = app.now w in
      let (collected, w2) = app.new_runner c w1 in
      let (report, w3) = synchronize c (ensure_desired_state collected) w2 in
      publish c started_at report (opening c loaded) w3

  unfoldable pub loaded_config : Result Config → Bool → W → Finished W
  unfolding refuse run_with
  loaded_config (err e) loaded w = refuse e w
  loaded_config (ok c) loaded w = run_with c loaded w

  -- `Run`.
  unfoldable pub run : W → Finished W
  unfolding loaded_config
  run w = let ((result, loaded), w') = app.load_config w in loaded_config result loaded w'
