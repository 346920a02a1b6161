-- ===== src/Role/Tests.antt =====
-- Runs of internal/role/role.go, and instances of the theorems.
use lts_agent.Base.{◌≡◌, refl, ◌&&◌, Bytes, List, [], ◌∷◌, lit, same, less, contains, map}
use lts_agent.Go.Errors.{ok}
use lts_agent.Go.Regexp.{matches}
use lts_agent.Go.Sets.{add, sort_strings}
use lts_agent.Go.Sets.Order.{IsIncreasing}
use lts_agent.Go.Json.Value.{cons, nil, str, Items, is_null}
use lts_agent.Go.Json.Decode.{decode_strings, string_into}
use lts_agent.Identifier.{valid}
use lts_agent.Desired
use lts_agent.Role.{Collector, collect_assignment, validate_identifiers, invalid_identifier}
use lts_agent.Role.Names.{rejected, validate_identifiers_exact}
use lts_agent.Role.Sound.{
  IsReported, collect_assignment-IsReported, validate_identifiers-decode_identifiers,
}

abbrev collector : Collector
collector = record {
  path = lit "/assigned.json";
  read_file =
      λ path. ok (lit "{\"schema_version\":1,\"roles\":[\"web\",\"Db\"],\"capabilities\":[]}");
}

collect_assignment-IsReported_example : IsReported (collect_assignment collector).0
collect_assignment-IsReported_example = collect_assignment-IsReported collector

abbrev values : List Bytes
values = lit "web" ∷ lit "Db" ∷ lit "db" ∷ []

validate_identifiers_exact_example :
    IsIncreasing (validate_identifiers (lit "roles") values).0
    × ((a : Bytes)
        → contains a (validate_identifiers (lit "roles") values).0 ≡ (valid a && contains a values))
    × ((validate_identifiers (lit "roles") values).1
        ≡ map (invalid_identifier (lit "roles")) (rejected values))
validate_identifiers_exact_example = validate_identifiers_exact (lit "roles") values

abbrev items : Items
items = cons (str (lit "web")) (cons (str (lit "db")) nil)

validate_identifiers-decode_identifiers_example :
    validate_identifiers (lit "roles") (lit "web" ∷ lit "db" ∷ []) ≡ (lit "db" ∷ lit "web" ∷ [], [])
unfolding Desired.decode_identifiers decode_strings add sort_strings valid matches lit same less
    contains is_null string_into
validate_identifiers-decode_identifiers_example =
    validate_identifiers-decode_identifiers (lit "roles") (lit "roles") items
      (lit "web" ∷ lit "db" ∷ []) (lit "db" ∷ lit "web" ∷ []) refl refl
