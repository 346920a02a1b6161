-- ===== src/Config/Tests.antt =====
-- Runs of internal/config/config.go on a concrete file, and instances of the theorems.
use lts_agent.Base.{◌≡◌, ◌≢◌, refl, ap, true, false, Bool, Bytes, [], lit, same, less, contains}
use lts_agent.Go.Errors.{Result, ok, err, text}
use lts_agent.Go.Numbers.{pos, read_int, int_lt}
use lts_agent.Go.Strings.{has_prefix}
use lts_agent.Go.Utf8.{rune_length, encode_rune}
use lts_agent.Go.Json.Value.{is_null}
use lts_agent.Go.Json.Parse.{first_value, skip_space, read_string, read_number}
use lts_agent.Go.Json.Decode.{
  decode_one, decode_struct, match_name, int_pointer, string_pointer, bool_pointer,
}
use lts_agent.Client.{parse_base_url}
use lts_agent.Client.Net.{Url, Web}
use lts_agent.Config.Wire.{
  decode_document, decode_checks, decode_core, decode_logging, reject_null_fields,
}
use lts_agent.Config.Sound.{IsParsed, load-IsParsed, parse_base_url-IsValid}
use lts_agent.Config.{
  Config, default_checks, default_core, parse, check_document, read_checks, read_logging, read_core,
  validate, is_origin, log_level, load_with_dependencies, loaded_from,
}
use lts_agent.Go.Filepath.{is_abs}

abbrev origin : Url
origin = record {
  scheme = lit "https";
  host = lit "core";
  has_user = false;
  path = [];
  raw_query = [];
  fragment = [];
}

-- A network that parses every text to the same URL.
abbrev web : Web (Unit {0})
web = record {
  parse_url = λ raw. ok origin;
  resolve_reference = λ base reference. reference;
  url_string = λ url. [];
  check_request = λ method address. ok tt;
  send = λ request w. (err (text []), w);
}

abbrev file : Bytes
file =
    lit
      "{\"schema_version\":2,\"checks\":{\"timeout_seconds\":5},\"core\":{\"enabled\":true,\"base_url\":\"https://core\"}}"

abbrev config : Config
config = record {
  schema_version = pos 2;
  checks = record default_checks { timeout_seconds = pos 5 };
  log_level = lit "info";
  core = record default_core { enabled = true; base_url = lit "https://core" };
}

load-file :
    (load_with_dependencies web.parse_url (lit "/config.json") (λ path. ok file))
    ≡ (ok config, true)
unfolding load_with_dependencies loaded_from parse check_document read_checks read_logging read_core
    validate is_abs is_origin log_level decode_document decode_checks decode_core decode_logging
    reject_null_fields decode_one decode_struct match_name int_pointer string_pointer bool_pointer
    first_value skip_space read_string read_number has_prefix rune_length encode_rune is_null
    read_int int_lt lit same contains less
load-file = refl

load-IsParsed_example : IsParsed web.parse_url config
load-IsParsed_example =
    load-IsParsed web.parse_url (lit "/config.json") (λ path. ok file) config
      (ap (λ (r : Result Config × Bool). r.0) load-file)

filled : lit "https://core" ≢ []
unfolding lit
filled e = cc

parse_base_url-IsValid_example :
    (url : Url) × (parse_base_url web.parse_url (lit "https://core") ≡ ok url)
parse_base_url-IsValid_example =
    parse_base_url-IsValid web.parse_url config
      (load-IsParsed web.parse_url (lit "/config.json") (λ path. ok file) config
        (ap (λ (r : Result Config × Bool). r.0) load-file)).is_valid
      filled
