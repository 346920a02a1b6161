-- ===== src/App/Tests.antt =====
-- Runs of internal/app/app.go with a small runner, and instances of the theorems.
use lts_agent.Base.{
  if◌then◌else◌, subst, ℕ, suc, ◌≡◌, refl, Bool, true, false, Bytes, List, [], ◌∷◌, some, none, lit,
  same, map,
}
use lts_agent.Go.Action.{Action}
use lts_agent.Go.Errors.{ok, err, text}
use lts_agent.Go.Numbers.{pos}
use lts_agent.Inventory.{Report, Check}
use lts_agent.Config.{Config, defaults, default_core, log_level}
use lts_agent.Agent.Output.{write_report_json}
use lts_agent.App.{App, CoreSynchronizer, Entry, exited, ensure_desired_state, log_at}
use lts_agent.App.Run.{
  disabled_core, with_synchronizer, synchronize, complete, written, output, publish, run_with,
  loaded_config, run, log_loaded, log_sync_started, log_warnings, log_synced, log_completed,
  log_sync_completed,
}
use lts_agent.App.Exit.{IsComplete, IsRun, HasCore, run-IsRun}
use lts_agent.App.Log.{IsLogged, run-IsLogged}
use lts_agent.App.Offline.{run-offline}

abbrev no_check : Check
no_check = record {
  available = false;
  status = lit "unavailable";
  exit_code = none;
  duration_ms = pos 0;
  output = [];
  truncated = false;
}

-- A report whose desired state is nil.
abbrev report : Report
report = record {
  agent = record { version = lit "1.0" };
  node = record { hostname = lit "h" };
  lbi = record {
    available = false;
    name = [];
    short = [];
    version = [];
    build = [];
    base_os = [];
    maintainer = [];
  };
  system = record { os = []; kernel = []; architecture = []; timezone = [] };
  assignment = record {
    available = false;
    schema_version = pos 0;
    roles = some [];
    capabilities = some [];
  };
  checks = record { validation = no_check; health = no_check };
  desired_state = none;
  core = none;
  warnings = record { source = lit "os"; message = lit "gone" } ∷ [];
}

abbrev config : Bool → Config
config enabled = record defaults { core = record default_core { enabled = enabled } }

abbrev synchronizer : CoreSynchronizer ℕ
synchronizer r w = ((some disabled_core, none, []), suc w)

-- The state counts the calls of the synchronizer; `accepts` says whether stdout takes a text.
abbrev app : Bool → Bool → App ℕ
app accepts enabled = record {
  stdout = λ s w. (if accepts then ok tt else err (text (lit "closed")), w);
  load_config = λ w. ((ok (config enabled), false), w);
  new_runner = λ c w. (report, w);
  new_core_synchronizer = λ c w. (ok synchronizer, w);
  now = λ w. (w, w);
  config_path = lit "/config.json";
}

messages : List Entry → List Bytes
messages log = map (λ (e : Entry). e.message) log

run-enabled :
    ((run (app true true) 4).ending ≡ exited 0)
    × ((run (app true true) 4).world ≡ 5)
    × (messages (run (app true true) 4).log
        ≡ lit "using default configuration"
          ∷ lit "inventory collection started"
          ∷ lit "Core synchronization started"
          ∷ lit "inventory collection warning"
          ∷ lit "Core synchronization completed"
          ∷ lit "inventory collection completed"
          ∷ [])
unfolding run loaded_config run_with synchronize with_synchronizer publish output written complete
    ensure_desired_state write_report_json log_at log_loaded log_sync_started log_warnings
    log_synced log_completed log_sync_completed log_level messages same lit
run-enabled = (refl, refl, refl)

app-HasCore :
    (c : Config) (w : ℕ) (s : CoreSynchronizer ℕ)
    → ((app true true).new_core_synchronizer c w).0 ≡ ok s
    → HasCore s
app-HasCore c w s h =
    let e : synchronizer ≡ s = cc in subst HasCore e (λ r v. (disabled_core, refl))

run-IsRun_example : IsRun (app true true) (λ c. IsComplete) 4 (run (app true true) 4)
run-IsRun_example = run-IsRun (app true true) app-HasCore 4

run-IsLogged_example : IsLogged (run (app false true) 4)
run-IsLogged_example = run-IsLogged (app false true) 4

abbrev failing : Config → Action ℕ (CoreSynchronizer ℕ)
failing c w = (err (text (lit "no client")), suc w)

run-offline_example :
    run (record (app true false) { new_core_synchronizer = failing }) 4 ≡ run (app true false) 4
run-offline_example = run-offline (app true false) failing 4 (config false) refl refl
