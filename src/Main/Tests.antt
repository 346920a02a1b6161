-- ===== src/Main/Tests.antt =====
-- The program of cmd/lts-agent/main.go in a small world, and instances of the theorems.
use lts_agent.Base.{
  if◌then◌else◌, ℕ, suc, ◌≡◌, refl, true, false, Bytes, [], some, none, lit, same, less, contains,
}
use lts_agent.Go.Action.{continue}
use lts_agent.Go.Errors.{Error, Result, ok, err, text, wrap, not_exist}
use lts_agent.Go.Numbers.{pos, read_int, int_lt}
use lts_agent.Go.Filepath.{is_abs}
use lts_agent.Go.Strings.{has_prefix, trim_space, contains_any}
use lts_agent.Go.Utf8.{rune_length, encode_rune}
use lts_agent.Go.Json.Value.{is_null}
use lts_agent.Go.Json.Parse.{first_value, skip_space, read_string, read_number}
use lts_agent.Go.Json.Decode.{
  decode_one, decode_struct, match_name, int_pointer, string_pointer, bool_pointer,
}
use lts_agent.Client.Net.{Url}
use lts_agent.Client.Options.{check_options}
use lts_agent.Client.Setup.{new_client, root_pool}
use lts_agent.Client.Trusted.{IsTrustError}
use lts_agent.Client.{parse_base_url}
use lts_agent.Config.Wire.{
  decode_document, decode_checks, decode_core, decode_logging, reject_null_fields,
}
use lts_agent.Config.{
  load, Config, default_checks, default_core, parse, check_document, read_checks, read_logging,
  read_core, validate, is_origin, log_level, load_with_dependencies, loaded_from,
}
use lts_agent.App.Exit.{IsRun}
use lts_agent.Main.{Outside, application, core_synchronizer, main}
use lts_agent.Main.Published.{IsPublished, main-IsRun}
use lts_agent.Main.Startup.{load-IsTrustError}

abbrev origin : Url
origin = record {
  scheme = lit "https";
  host = lit "core";
  has_user = false;
  path = [];
  raw_query = [];
  fragment = [];
}

abbrev file : Bytes
file = lit "{\"schema_version\":2,\"core\":{\"enabled\":true,\"base_url\":\"https://core\"}}"

abbrev missing : {A : Type 0} → ℕ → Result A × ℕ
missing w = (err (not_exist (lit "no file")), w)

-- A world with nothing but a configuration file and a standard output; the state counts the texts
-- that were written.
abbrev outside : Outside ℕ ℕ
outside = record {
  stdout = λ s w. (ok tt, suc w);
  now = λ w. (w, w);
  os_read_file = λ w path.
      if same path (lit "/opt/lts/config/lts-agent.json")
      then ok file
      else err (not_exist (lit "no file"));
  system = record {
    read_file = λ path. missing;
    readlink = λ path. missing;
    hostname = missing;
    run_command = λ command arguments. missing;
    architecture = lit "amd64";
    location = λ w. (none, w);
  };
  checks = record {
    execute = λ timeout path limit w. (
      record {
        started = false;
        exit_code = none;
        output = [];
        truncated = false;
        error = some (text (lit "no script"));
      },
      false,
      w,
    );
    now = λ w. (w, w);
    cancelled = λ w. none;
    show_duration = λ d. lit "30s";
    validation_path = [];
    health_path = [];
    timeout = 0;
    output_limit = 0;
  };
  sync = record {
    read_file = λ path. missing;
    lstat = λ path. missing;
    mkdir_all = λ path mode. missing;
    create_temp = λ dir pattern. missing;
    chmod = λ name mode. missing;
    write = λ name contents. missing;
    sync_file = λ name. missing;
    close = λ name. missing;
    rename = λ from to. missing;
    remove = λ name. missing;
    now = λ w. (lit "2024-01-01T00:00:00Z", w);
    cancelled = λ w. false;
    dir = λ path. lit "/";
    sum256 = λ s. [];
  };
  web = record {
    parse_url = λ raw. ok origin;
    resolve_reference = λ base reference. reference;
    url_string = λ url. [];
    check_request = λ method address. ok tt;
    send = λ request w. (err (text []), w);
  };
  send = λ transport request w. (err (text []), w);
  trust = record {
    system_cert_pool = missing;
    new_cert_pool = 0;
    append_certs = λ pool pem. (pool, false);
    read_file = λ path. missing;
  };
}

abbrev config : Config
config = record {
  schema_version = pos 2;
  checks = default_checks;
  log_level = lit "info";
  core = record default_core { enabled = true; base_url = lit "https://core" };
}

main-IsRun_example : IsRun (application outside) IsPublished 3 (main outside 3)
main-IsRun_example = main-IsRun outside 3

load-file : ((application outside).load_config 3).0.0 ≡ ok config
unfolding load load_with_dependencies loaded_from parse check_document read_checks read_logging
    read_core validate is_abs is_origin log_level decode_document decode_checks decode_core
    decode_logging reject_null_fields decode_one decode_struct match_name int_pointer string_pointer
    bool_pointer first_value skip_space read_string read_number has_prefix rune_length encode_rune
    is_null read_int int_lt lit same contains less
load-file = refl

abbrev pool_error : Error
pool_error = wrap (lit "load system certificate pool: ") (not_exist (lit "no file"))

build-fails : ((application outside).new_core_synchronizer config 3).0 ≡ err pool_error
unfolding core_synchronizer new_client check_options parse_base_url root_pool continue int_lt
    trim_space contains_any same lit
build-fails = refl

load-IsTrustError_example : IsTrustError outside.trust 3 (lit "") pool_error
unfolding lit
load-IsTrustError_example =
    load-IsTrustError outside 3 3 config pool_error load-file refl build-fails
