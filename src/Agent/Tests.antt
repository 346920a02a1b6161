-- ===== src/Agent/Tests.antt =====
-- A report of internal/agent/agent.go without warnings.
use lts_agent.Base.{ℕ, ◌+◌, ◌*◌, ◌≡◌, refl, true, false, [], none, some, lit, same, less, contains}
use lts_agent.Go.Errors.{ok}
use lts_agent.Go.Numbers.{pos, read_int, int_eq}
use lts_agent.Go.Regexp.{matches}
use lts_agent.Go.Sets.{add, sort_strings}
use lts_agent.Inventory.{Lbi}
use lts_agent.Role
use lts_agent.Role.{
  collect_assignment, of_file, of_document, assignment_of, decode_document, check_document,
  validate_identifiers, collect,
}
use lts_agent.Identifier.{valid}
use lts_agent.Go.Strings.{has_prefix}
use lts_agent.Go.Utf8.{rune_length, encode_rune}
use lts_agent.Go.Json.Parse.{first_value, skip_space, read_string, read_number}
use lts_agent.Go.Json.Decode.{
  decode_one, decode_struct, match_name, int_pointer, strings_pointer, decode_strings, string_into,
}
use lts_agent.Check
use lts_agent.Check.{
  collect_checks, second, run, classify, finish, validation_status, health_status,
}
use lts_agent.System.{SystemResult}
use lts_agent.Agent.{collect_report}
use lts_agent.Agent.Quiet.{AllChecked, agent, collect_report-AllChecked}

abbrev role : Role.Collector
role = record {
  path = lit "/assigned.json";
  read_file = λ path. ok (lit "{\"schema_version\":1,\"roles\":[\"web\"],\"capabilities\":[]}");
}

abbrev checks : Check.Collector ℕ
checks = record {
  deps = record {
    execute = λ timeout path limit w. (
      record {
        started = true;
        exit_code = some (pos 0);
        output = [];
        truncated = false;
        error = none;
      },
      false,
      w + second,
    );
    now = λ w. (w, w);
    cancelled = λ w. none;
    show_duration = λ d. lit "30s";
    validation_path = lit "/validate";
    health_path = lit "/health";
    timeout = 30 * second;
    output_limit = 64;
  };
}

abbrev system_result : SystemResult
system_result = record {
  hostname = lit "h";
  system = record { os = []; kernel = []; architecture = []; timezone = [] };
}

abbrev lbi_result : Lbi
lbi_result = record {
  available = false;
  name = [];
  short = [];
  version = [];
  build = [];
  base_os = [];
  maintainer = [];
}

collect_report-AllChecked_example :
    ((collect_report
        (agent (λ w. ((system_result, []), w)) (λ w. ((lbi_result, []), w)) role checks)
        0).0.assignment.available
      ≡ true)
    × AllChecked
        (collect_report
          (agent (λ w. ((system_result, []), w)) (λ w. ((lbi_result, []), w)) role checks)
          0).0.checks
unfolding collect_report collect_assignment of_file of_document assignment_of decode_document
    check_document validate_identifiers collect collect_checks run classify finish validation_status
    health_status int_eq decode_one decode_struct match_name int_pointer strings_pointer
    decode_strings string_into first_value skip_space read_string read_number has_prefix rune_length
    encode_rune read_int lit same less contains add sort_strings valid matches
collect_report-AllChecked_example =
    collect_report-AllChecked (λ w. ((system_result, []), w)) (λ w. ((lbi_result, []), w)) role
      checks 0 refl
