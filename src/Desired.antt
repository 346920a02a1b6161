-- ===== src/Desired.antt =====
-- internal/desired/desired.go: the desired-state response of LTS Core.
pub mod Fields
pub mod Sound
mod Tests
use lts_agent.Base.{
  ℕ, Bool, true, false, ◌||◌, Bytes, List, [], ◌∷◌, ◌++◌, Option, none, some, lit, same, ◌==◌,
  within, if◌then◌else◌,
}
use lts_agent.Go.Errors.{
  Error, text, wrap, Result, ok, err, require, wrap_error, given, ◌>>=◌, ◌>>◌,
}
use lts_agent.Go.Numbers.{ℤ, pos, int_eq, show_int}
use lts_agent.Go.Regexp.{Regex, class, seq, upto, matches}
use lts_agent.Go.Sets.{add, sort_strings}
use lts_agent.Go.Json.Value.{Value, null, arr, is_null}
use lts_agent.Go.Json.Decode.{
  decode_one, decode_struct, decode_strings, int_pointer, string_pointer, type_error,
}
use lts_agent.Identifier
use lts_agent.Inventory.{DesiredState}

abbrev pub supported_schema_version : ℤ
supported_schema_version = pos 1

abbrev alphanumeric : ℕ → Bool
alphanumeric c = within b'A' b'Z' c || within b'a' b'z' c || within b'0' b'9' c

-- `^[A-Za-z0-9][A-Za-z0-9._:-]{0,127}$`
abbrev pub revision_pattern : Regex
revision_pattern =
    seq (class alphanumeric)
      (upto 127 (class (λ c. alphanumeric c || c == b'.' || c == b'_' || c == b':' || c == b'-')))

pub record Document : Type 0 where
  pub schema_version : ℤ
  pub revision : Bytes
  pub roles : List Bytes
  pub capabilities : List Bytes

pub record WireDocument : Type 0 where
  pub schema_version : Option ℤ
  pub revision : Option Bytes
  pub roles : Option Value
  pub capabilities : Option Value

-- Into a `*json.RawMessage`: `null` makes the pointer nil.
raw_pointer : Value → Option Value
raw_pointer v = if is_null v then none else some v

set_wire : Bytes → Value → WireDocument → Result WireDocument
unfolding raw_pointer
set_wire name v d =
    if same name (lit "schema_version")
    then (do n ← int_pointer v; ok (record d { schema_version = n }))
    else if same name (lit "revision")
    then (do s ← string_pointer v; ok (record d { revision = s }))
    else if same name (lit "roles")
    then ok (record d { roles = raw_pointer v })
    else ok (record d { capabilities = raw_pointer v })

abbrev wire_names : List Bytes
wire_names = lit "schema_version" ∷ lit "revision" ∷ lit "roles" ∷ lit "capabilities" ∷ []

unfoldable pub decode_wire : Value → Result WireDocument
unfolding set_wire
decode_wire =
    decode_struct wire_names set_wire
      (record { schema_version = none; revision = none; roles = none; capabilities = none })

-- `json.Unmarshal(*raw, &values)` with a nil slice: `null` leaves it nil.
unmarshal_strings : Value → Result (List Bytes)
unmarshal_strings (arr vs) = decode_strings vs
unmarshal_strings null = ok []
unmarshal_strings _ = err type_error

-- The loop that collects the valid identifiers and stops at the first invalid one.
collect : Bytes → List Bytes → List Bytes → Result (List Bytes)
collect name unique [] = ok unique
collect name unique (value ∷ values) = elim (Identifier.valid value) [
  | true ↦ collect name (add value unique) values
  | false ↦ err (text (name ++ lit " contains an invalid identifier"))
]

unfoldable pub decode_identifiers : Bytes → Option Value → Result (List Bytes)
unfolding unmarshal_strings collect
decode_identifiers name none = err (text (name ++ lit " must be a non-null array"))
decode_identifiers name (some raw) =
    if is_null raw then err (text (name ++ lit " must be a non-null array")) else (do
      values ← wrap_error (name ++ lit " must be an array of strings: ") (unmarshal_strings raw)
      unique ← collect name [] values
      ok (sort_strings unique))

-- The checks of `Parse` behind the decoding.
unfoldable pub check_wire : WireDocument → Result Document
check_wire wire = do
  version ← given wire.schema_version (text (lit "schema_version is required"))
  require (int_eq version supported_schema_version)
      (text (lit "unsupported schema_version " ++ show_int version))
  revision ← given wire.revision (text (lit "revision is required"))
  require (matches revision_pattern revision) (text (lit "revision is invalid"))
  roles ← decode_identifiers (lit "roles") wire.roles
  capabilities ← decode_identifiers (lit "capabilities") wire.capabilities
  ok (record {
    schema_version = version;
    revision = revision;
    roles = roles;
    capabilities = capabilities;
  })

pub parse : Bytes → Result Document
parse s = do wire ← decode_one decode_wire s; check_wire wire

-- `UnmarshalJSON` on the value that the client's decoder hands it.
unfoldable pub unmarshal : Value → Result Document
unmarshal v = do wire ← decode_wire v; check_wire wire

unfoldable pub inventory : Document → DesiredState
inventory d = record {
  available = true;
  schema_version = d.schema_version;
  revision = d.revision;
  roles = some d.roles;
  capabilities = some d.capabilities;
}
