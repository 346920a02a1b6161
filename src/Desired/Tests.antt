-- ===== src/Desired/Tests.antt =====
-- Runs of internal/desired/desired.go on concrete documents, and instances of the theorems.
use lts_agent.Base.{
  all, true, false, some, ◌++◌, ◌⊎◌, List, arith, ◌≡◌, refl, Bytes, List, [], ◌∷◌, lit, same, less,
  contains, some,
}
use lts_agent.Go.Errors.{ok, err, text}
use lts_agent.Go.Numbers.{pos, read_int, int_eq}
use lts_agent.Go.Regexp.{matches}
use lts_agent.Go.Sets.{add, sort_strings}
use lts_agent.Go.Strings.{has_prefix}
use lts_agent.Go.Utf8.{rune_length, encode_rune}
use lts_agent.Go.Json.Value.{str, arr, nil, cons, is_null}
use lts_agent.Go.Json.Parse.{first_value, skip_space, read_string, read_number}
use lts_agent.Go.Json.Decode.{
  decode_one, decode_struct, match_name, int_pointer, string_pointer, string_into, decode_strings,
}
use lts_agent.Identifier.{valid}
use lts_agent.Desired.{Document, parse, decode_wire, check_wire, decode_identifiers}
use lts_agent.Go.Errors.{err, text}
use lts_agent.Go.Sets.Order.{IsIncreasing}
use lts_agent.Go.Json.Value.{Items, arr, cons, nil, str}
use lts_agent.Desired.Fields.{decode_identifiers_exact, decode_identifiers_order}
use lts_agent.Desired.Sound.{IsSound, parse-IsSound}

abbrev body : Bytes
body =
    lit
      "{\"schema_version\":1, \"revision\":\"r-7\",\"Roles\":[\"web\",\"db\",\"web\"],\"capabilities\":[]}\n"

abbrev document : Document
document = record {
  schema_version = pos 1;
  revision = lit "r-7";
  roles = lit "db" ∷ lit "web" ∷ [];
  capabilities = [];
}

parse-body : parse body ≡ ok document
unfolding parse decode_wire check_wire decode_identifiers decode_one decode_struct match_name
    int_pointer string_pointer decode_strings string_into first_value skip_space read_string
    read_number has_prefix rune_length encode_rune lit same less contains add sort_strings valid
    matches is_null read_int int_eq
parse-body = refl

parse-IsSound_example : IsSound document
parse-IsSound_example = parse-IsSound body document parse-body

abbrev values : List Bytes
values = lit "web" ∷ lit "db" ∷ []

abbrev items : Items
items = cons (str (lit "web")) (cons (str (lit "db")) nil)

abbrev flipped : Items
flipped = cons (str (lit "db")) (cons (str (lit "web")) nil)

decode_identifiers_exact_example :
    ((all valid values ≡ false)
      × (decode_identifiers (lit "roles") (some (arr items))
          ≡ err (text (lit "roles" ++ lit " contains an invalid identifier"))))
    ⊎ ((l : List Bytes) × (all valid values ≡ true)
        × (decode_identifiers (lit "roles") (some (arr items)) ≡ ok l)
        × IsIncreasing l
        × ((a : Bytes) → contains a l ≡ contains a values))
unfolding decode_strings lit string_into
decode_identifiers_exact_example = decode_identifiers_exact (lit "roles") items values refl

same_members :
    (a : Bytes) → contains a (lit "web" ∷ lit "db" ∷ []) ≡ contains a (lit "db" ∷ lit "web" ∷ [])
unfolding contains
same_members a = ground arith

decode_identifiers_order_example : lit "db" ∷ lit "web" ∷ [] ≡ lit "db" ∷ lit "web" ∷ []
unfolding decode_identifiers decode_strings add sort_strings valid matches lit same less contains
    is_null string_into
decode_identifiers_order_example =
    decode_identifiers_order (lit "roles") (lit "roles") items flipped values
      (lit "db" ∷ lit "web" ∷ []) (lit "db" ∷ lit "web" ∷ []) (lit "db" ∷ lit "web" ∷ []) refl refl
      same_members refl refl
