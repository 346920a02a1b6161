-- ===== src/Config.antt =====
-- internal/config/config.go: the configuration file and the effective configuration.
pub mod Wire
pub mod Sound
mod Tests
use lts_agent.Base.{
  ℕ, Bool, true, false, ◌&&◌, ◌||◌, not, Bytes, List, [], ◌∷◌, ◌++◌, Option, none, some, lit, same,
  if◌then◌else◌, is_empty,
}
use lts_agent.Go.Errors.{
  Error, text, Result, ok, err, require, wrap, wrap_error, given, is_not_exist, ◌>>=◌, ◌>>◌,
}
use lts_agent.Go.Numbers.{ℤ, pos, int_lt, show_int}
use lts_agent.Go.Filepath.{is_abs}
use lts_agent.Go.Json.Value.{Value, is_null}
use lts_agent.Go.Json.Decode.{decode_one}
use lts_agent.Check
use lts_agent.Client.Net.{Url}
use lts_agent.Config.Wire.{
  Document, ChecksDocument, CoreDocument, decode_document, decode_checks, decode_logging,
  decode_core, reject_null_fields,
}

abbrev pub default_path : Bytes
default_path = lit "/opt/lts/config/lts-agent.json"

abbrev pub supported_schema_version : ℤ
supported_schema_version = pos 2

abbrev pub minimum_schema_version : ℤ
minimum_schema_version = pos 1

pub record Checks : Type 0 where
  pub validation_path : Bytes
  pub health_path : Bytes
  pub timeout_seconds : ℤ
  pub max_output_bytes : ℤ

pub record Core : Type 0 where
  pub enabled : Bool
  pub base_url : Bytes
  pub ca_file : Bytes
  pub request_timeout_seconds : ℤ
  pub enrollment_token_file : Bytes
  pub state_file : Bytes

-- `Logging` has one field, and is that field here.
pub record Config : Type 0 where
  pub schema_version : ℤ
  pub checks : Checks
  pub log_level : Bytes
  pub core : Core

abbrev pub default_core : Core
default_core = record {
  enabled = false;
  base_url = [];
  ca_file = [];
  request_timeout_seconds = pos 10;
  enrollment_token_file = lit "/var/lib/lts-agent/enrollment-token";
  state_file = lit "/var/lib/lts-agent/state.json";
}

abbrev pub default_checks : Checks
default_checks = record {
  validation_path = Check.validation_path;
  health_path = Check.health_path;
  timeout_seconds = pos 30;
  max_output_bytes = pos Check.max_output_bytes;
}

abbrev pub defaults : Config
defaults = record {
  schema_version = supported_schema_version;
  checks = default_checks;
  log_level = lit "info";
  core = default_core;
}

-- `if override != nil { target = *override }`.
abbrev pub override : {A : Type 0} → A → Option A → A
override target none = target
override target (some value) = value

apply_core_overrides : Core → CoreDocument → Core
apply_core_overrides target o = record {
  enabled = override target.enabled o.enabled;
  base_url = override target.base_url o.base_url;
  ca_file = override target.ca_file o.ca_file;
  request_timeout_seconds = override target.request_timeout_seconds o.request_timeout_seconds;
  enrollment_token_file = override target.enrollment_token_file o.enrollment_token_file;
  state_file = override target.state_file o.state_file;
}

apply_check_overrides : Checks → ChecksDocument → Checks
apply_check_overrides target o = record {
  validation_path = override target.validation_path o.validation_path;
  health_path = override target.health_path o.health_path;
  timeout_seconds = override target.timeout_seconds o.timeout_seconds;
  max_output_bytes = override target.max_output_bytes o.max_output_bytes;
}

-- The levels of `log/slog`.
pub data Level : Type 0 where
  level_debug level_info level_warn level_error : Level

-- `LogLevel`: a level, and the error for an unknown name.
unfoldable pub log_level : Bytes → Level × Option Error
log_level level =
    if same level (lit "debug")
    then (level_debug, none)
    else if same level (lit "info")
    then (level_info, none)
    else if same level (lit "warn")
    then (level_warn, none)
    else if same level (lit "error")
    then (level_error, none)
    else (level_info, some (text (lit "logging.level must be one of debug, info, warn, or error")))

abbrev within_range : ℕ → ℕ → ℤ → Bool
within_range low high n = not (int_lt n (pos low) || int_lt (pos high) n)

-- The condition on a URL that is not empty.
unfoldable pub is_origin : Result Url → Bool
is_origin (err e) = false
is_origin (ok parsed) =
    same parsed.scheme (lit "https")
    && (not (is_empty parsed.host)
        && (not parsed.has_user && (is_empty parsed.raw_query && is_empty parsed.fragment)))

module _ (parse_url : Bytes → Result Url) where
  unfoldable pub validate : Config → Result (Unit {0})
  validate c = do
    require (is_abs c.checks.validation_path)
        (text (lit "checks.validation_path must be a non-empty absolute path"))
    require (is_abs c.checks.health_path)
        (text (lit "checks.health_path must be a non-empty absolute path"))
    require (within_range 1 300 c.checks.timeout_seconds)
        (text (lit "checks.timeout_seconds must be between 1 and 300"))
    require (within_range 1024 1048576 c.checks.max_output_bytes)
        (text (lit "checks.max_output_bytes must be between 1024 and 1048576"))
    elim (log_level c.log_level).1 [ none ↦ ok tt | some e ↦ err e ]
    require (not (c.core.enabled && is_empty c.core.base_url))
        (text (lit "core.base_url is required when core is enabled"))
    require (is_empty c.core.base_url || is_origin (parse_url c.core.base_url))
        (text (lit "core.base_url must be an HTTPS origin without credentials, query, or fragment"))
    require (is_empty c.core.ca_file || is_abs c.core.ca_file)
        (text (lit "core.ca_file must be an absolute path when set"))
    require (is_abs c.core.enrollment_token_file)
        (text (lit "core.enrollment_token_file must be an absolute path"))
    require (is_abs c.core.state_file) (text (lit "core.state_file must be an absolute path"))
    require (within_range 1 120 c.core.request_timeout_seconds)
        (text (lit "core.request_timeout_seconds must be between 1 and 120"))

-- The sections of `parse`: one that is absent keeps the defaults.
unfoldable pub read_checks : Option Value → Checks → Result Checks
unfolding apply_check_overrides
read_checks none target = ok target
read_checks (some v) target = do
  require (not (is_null v)) (text (lit "checks must be an object"))
  reject_null_fields (lit "checks") v
  overrides ← wrap_error (lit "checks: ") (decode_checks v)
  ok (apply_check_overrides target overrides)

unfoldable pub read_logging : Option Value → Bytes → Result Bytes
read_logging none target = ok target
read_logging (some v) target = do
  require (not (is_null v)) (text (lit "logging must be an object"))
  reject_null_fields (lit "logging") v
  level ← wrap_error (lit "logging: ") (decode_logging v)
  ok (override target level)

unfoldable pub read_core : ℤ → Option Value → Core → Result Core
unfolding apply_core_overrides
read_core version none target = ok target
read_core version (some v) target = do
  require (not (int_lt version (pos 2))) (text (lit "core requires schema_version 2"))
  require (not (is_null v)) (text (lit "core must be an object"))
  reject_null_fields (lit "core") v
  overrides ← wrap_error (lit "core: ") (decode_core v)
  ok (apply_core_overrides target overrides)

module _ (parse_url : Bytes → Result Url) where
  -- `parse` behind the decoding of the document.
  unfoldable pub check_document : Document → Result Config
  check_document raw = do
    version ← given raw.schema_version (text (lit "schema_version is required"))
    require (not (int_lt version minimum_schema_version || int_lt supported_schema_version version))
        (text (lit "unsupported schema_version " ++ show_int version))
    checks ← read_checks raw.checks default_checks
    level ← read_logging raw.logging (lit "info")
    core ← read_core version raw.core default_core
    let effective : Config = record {
      schema_version = version;
      checks = checks;
      log_level = level;
      core = core;
    }
    validate parse_url effective
    ok effective

  unfoldable pub parse : Bytes → Result Config
  parse contents = do raw ← decode_one decode_document contents; check_document raw

  -- `LoadWithDependencies` on what `readFile` returns: the configuration or the error, and whether
  -- a file was loaded.
  unfoldable pub loaded_from : Bytes → Result Bytes → Result Config × Bool
  loaded_from path (err e) =
      if is_not_exist e
      then (ok defaults, false)
      else (err (wrap (lit "read " ++ (path ++ lit ": ")) e), false)
  loaded_from path (ok contents) =
      (wrap_error (lit "parse " ++ (path ++ lit ": ")) (parse contents), true)

  unfoldable pub load_with_dependencies : Bytes → (Bytes → Result Bytes) → Result Config × Bool
  load_with_dependencies path read_file = loaded_from path (read_file path)

  -- `os_read_file` is `os.ReadFile`.
  unfoldable pub load : (Bytes → Result Bytes) → Result Config × Bool
  load os_read_file = load_with_dependencies default_path os_read_file
