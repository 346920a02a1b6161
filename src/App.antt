-- ===== src/App.antt =====
-- internal/app/app.go: one run of the command.
pub mod Run
pub mod Exit
pub mod Log
pub mod Offline
mod Tests
use lts_agent.Base.{
  ℕ, Bool, false, Bytes, List, [], ◌∷◌, ◌++◌, Option, none, some, lit, if◌then◌else◌, leb,
}
use lts_agent.Go.Errors.{Result}
use lts_agent.Go.Action.{Action}
use lts_agent.Go.Numbers.{ℤ, pos}
use lts_agent.Inventory.{Report, Core, DesiredState, Warning}
use lts_agent.Config.{Config, Level, level_debug, level_info, level_warn, level_error}
use lts_agent.Agent.{filled}

-- The value of an attribute of a log record.
pub data Attribute : Type 0 where
  text_attribute : Bytes → Attribute
  int_attribute : ℤ → Attribute
  bool_attribute : Bool → Attribute

-- A record of `log/slog`: what a line of the JSON handler says besides the time.
pub record Entry : Type 0 where
  pub level : Level
  pub message : Bytes
  pub attributes : List (Bytes × Attribute)

-- What `Sync` returns here: the pointers may be nil.
abbrev pub Synchronized : Type 0
Synchronized = Option Core × Option DesiredState × List Warning

abbrev pub CoreSynchronizer : Type 0 → Type 0
CoreSynchronizer W = Report → W → Synchronized × W

-- Over a state `W` of the outside world. `stdout` is the `Write` method of `Stdout`, and `now` is
-- in nanoseconds.
pub record App (W : Type 0) : Type 0 where
  pub stdout : Bytes → Action W (Unit {0})
  pub load_config : W → (Result Config × Bool) × W
  pub new_runner : Config → W → Report × W
  pub new_core_synchronizer : Config → Action W (CoreSynchronizer W)
  pub now : W → ℕ × W
  pub config_path : Bytes

-- How a run ends: with an exit code, or with the panic of a nil dereference.
pub data Ending : Type 0 where
  exited : ℕ → Ending
  panicked : Ending

pub record Finished (W : Type 0) : Type 0 where
  pub ending : Ending
  pub log : List Entry
  pub world : W

-- `slog.Level`: -4, 0, 4 and 8, moved up by 4.
abbrev pub severity : Level → ℕ
severity level_debug = 0
severity level_info = 4
severity level_warn = 8
severity level_error = 12

-- A logger of `newLogger`, with the attributes of `With`.
pub record Logger : Type 0 where
  pub level : Level
  pub attributes : List (Bytes × Attribute)

-- What a logger writes for one record: nothing below its level.
unfoldable pub log_at : Level → Logger → Bytes → List (Bytes × Attribute) → List Entry
log_at level logger message attributes =
    if leb (severity logger.level) (severity level)
    then record { level = level; message = message; attributes = logger.attributes ++ attributes }
      ∷ []
    else []

-- An attribute whose value is a text.
abbrev pub about : Bytes → Bytes → Bytes × Attribute
about key value = (key, text_attribute value)

abbrev pub event : Bytes → Bytes × Attribute
event name = about (lit "event") name

-- The fields that `ensureDesiredState` fills.
abbrev pub ensured : Option DesiredState → DesiredState
ensured none = record {
  available = false;
  schema_version = pos 0;
  revision = [];
  roles = some [];
  capabilities = some [];
}
ensured (some d) = record d { roles = filled d.roles; capabilities = filled d.capabilities }

unfoldable pub ensure_desired_state : Report → Report
ensure_desired_state report = record report { desired_state = some (ensured report.desired_state) }
