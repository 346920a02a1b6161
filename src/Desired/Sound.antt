-- ===== src/Desired/Sound.antt =====
-- What `Parse` of internal/desired/desired.go accepts and returns.
use lts_agent.Base.{ℕ, ◌==◌, ◌≡◌, Bool, true, ◌||◌, Bytes, lit, arith}
use lts_agent.Go.Errors.{ok, bind-eq-ok}
use lts_agent.Go.Numbers.{ℤ, pos, int_eq}
use lts_agent.Go.Regexp.{matches, HeadThen, matches-HeadThen}
use lts_agent.Go.Json.Value.{Value}
use lts_agent.Go.Json.Decode.{decode_one}
use lts_agent.Desired.{
  Document, WireDocument, alphanumeric, revision_pattern, decode_identifiers, decode_wire,
  check_wire, parse, unmarshal,
}
use lts_agent.Desired.Fields.{IsNames, decode_identifiers-IsNames}

abbrev is_revision_byte : ℕ → Bool
is_revision_byte c = alphanumeric c || c == b'.' || c == b'_' || c == b':' || c == b'-'

-- A letter or digit, then at most 127 letters, digits, dots, underscores, colons and hyphens.
abbrev pub IsRevision : Bytes → Type 0
IsRevision = HeadThen alphanumeric is_revision_byte 127

-- What holds of every document that is accepted.
pub record IsSound (d : Document) : Type 0 where
  pub version : d.schema_version ≡ pos 1
  pub revision : IsRevision d.revision
  pub roles : IsNames d.roles
  pub capabilities : IsNames d.capabilities

int_eq-eq : (a : ℤ) (n : ℕ) → int_eq a (pos n) ≡ true → a ≡ pos n
unfolding int_eq
int_eq-eq a n h = ground arith

check_wire-fields :
    (wire : WireDocument) (d : Document)
    → check_wire wire ≡ ok d
    → (int_eq d.schema_version (pos 1) ≡ true)
      × (matches revision_pattern d.revision ≡ true)
      × (decode_identifiers (lit "roles") wire.roles ≡ ok d.roles)
      × (decode_identifiers (lit "capabilities") wire.capabilities ≡ ok d.capabilities)
unfolding check_wire
check_wire-fields wire d h = ground arith

check_wire-IsSound : (wire : WireDocument) (d : Document) → check_wire wire ≡ ok d → IsSound d
check_wire-IsSound wire d h =
    let (v, r, roles, capabilities) = check_wire-fields wire d h in
    record {
      version = int_eq-eq d.schema_version 1 v;
      revision = matches-HeadThen alphanumeric is_revision_byte 127 d.revision r;
      roles = decode_identifiers-IsNames (lit "roles") wire.roles d.roles roles;
      capabilities =
          decode_identifiers-IsNames (lit "capabilities") wire.capabilities d.capabilities
            capabilities;
    }

-- Whatever bytes `Parse` accepts, the document has schema version 1, a well-formed revision, and
-- roles and capabilities that are valid identifiers in strict order.
pub parse-IsSound : (s : Bytes) (d : Document) → parse s ≡ ok d → IsSound d
unfolding parse
parse-IsSound s d h =
    let (wire, _, checked) = bind-eq-ok (decode_one decode_wire s) check_wire h in
    check_wire-IsSound wire d checked

pub unmarshal-IsSound : (v : Value) (d : Document) → unmarshal v ≡ ok d → IsSound d
unfolding unmarshal
unmarshal-IsSound v d h =
    let (wire, _, checked) = bind-eq-ok (decode_wire v) check_wire h in
    check_wire-IsSound wire d checked
