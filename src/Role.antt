-- ===== src/Role.antt =====
-- internal/role/role.go: the roles and capabilities assigned on the node.
pub mod Names
pub mod Sound
mod Tests
use lts_agent.Base.{
  Bool, true, false, Bytes, List, [], ◌∷◌, ◌++◌, Option, none, some, lit, same, if◌then◌else◌,
}
use lts_agent.Go.Errors.{Error, text, error_text, Result, ok, err, require, given, ◌>>=◌, ◌>>◌}
use lts_agent.Go.Numbers.{ℤ, pos, int_eq, show_int}
use lts_agent.Go.Sets.{add, sort_strings}
use lts_agent.Go.Json.Value.{Value}
use lts_agent.Go.Json.Decode.{decode_one, decode_struct, int_pointer, strings_pointer}
use lts_agent.Go.Quote.{quote}
use lts_agent.Identifier
use lts_agent.Inventory.{Assignment, Warning}

abbrev pub default_assignment_path : Bytes
default_assignment_path = lit "/opt/lts/roles/assigned.json"

abbrev pub supported_schema_version : ℤ
supported_schema_version = pos 1

pub record Collector : Type 0 where
  pub path : Bytes
  pub read_file : Bytes → Result Bytes

unfoldable pub new_collector_with_dependencies : Bytes → (Bytes → Result Bytes) → Collector
new_collector_with_dependencies path read_file = record { path = path; read_file = read_file }

-- `os_read_file` is `os.ReadFile`.
unfoldable pub new_collector : (Bytes → Result Bytes) → Collector
unfolding new_collector_with_dependencies
new_collector os_read_file = new_collector_with_dependencies default_assignment_path os_read_file

pub record AssignmentDocument : Type 0 where
  pub schema_version : Option ℤ
  pub roles : Option (List Bytes)
  pub capabilities : Option (List Bytes)

set_document : Bytes → Value → AssignmentDocument → Result AssignmentDocument
set_document name v d =
    if same name (lit "schema_version")
    then (do n ← int_pointer v; ok (record d { schema_version = n }))
    else if same name (lit "roles")
    then (do l ← strings_pointer v; ok (record d { roles = l }))
    else (do l ← strings_pointer v; ok (record d { capabilities = l }))

-- The fields of the document that `Collect` reads are there once `decodeDocument` has passed it.
pub record Assigned : Type 0 where
  pub roles : List Bytes
  pub capabilities : List Bytes

unfoldable pub check_document : AssignmentDocument → Result Assigned
check_document d = do
  version ← given d.schema_version (text (lit "schema_version is required"))
  require (int_eq version supported_schema_version)
      (text (lit "unsupported schema_version " ++ show_int version))
  roles ← given d.roles (text (lit "roles must be an array"))
  capabilities ← given d.capabilities (text (lit "capabilities must be an array"))
  ok (record { roles = roles; capabilities = capabilities })

unfoldable pub decode_document : Bytes → Result Assigned
unfolding set_document
decode_document s = do
  document ←
      decode_one
        (decode_struct (lit "schema_version" ∷ lit "roles" ∷ lit "capabilities" ∷ []) set_document
          (record { schema_version = none; roles = none; capabilities = none }))
        s
  check_document document

pub invalid_identifier : Bytes → Bytes → Warning
invalid_identifier source value = record {
  source = source;
  message =
      lit "invalid identifier "
      ++ (quote value ++ lit "; expected lowercase letters, digits, and internal hyphens");
}

-- The loop: the keys of `unique`, and the warnings in order.
unfoldable pub collect : Bytes → List Bytes → List Bytes → List Bytes × List Warning
unfolding invalid_identifier
collect source unique [] = (unique, [])
collect source unique (value ∷ values) = elim (Identifier.valid value) [
  | true ↦ collect source (add value unique) values
  | false ↦
      let rest = collect source unique values in (rest.0, invalid_identifier source value ∷ rest.1)
]

unfoldable pub validate_identifiers : Bytes → List Bytes → List Bytes × List Warning
unfolding collect
validate_identifiers source values =
    let found = collect source [] values in (sort_strings found.0, found.1)

abbrev pub empty_assignment : Assignment
empty_assignment = record {
  available = false;
  schema_version = pos 0;
  roles = some [];
  capabilities = some [];
}

abbrev assignment_warning : Bytes → Bytes → Error → Warning
assignment_warning verb path e = record {
  source = lit "assignment";
  message = verb ++ (path ++ (lit ": " ++ error_text e));
}

-- What `Collect` makes of a document.
unfoldable pub assignment_of : Assigned → Assignment × List Warning
assignment_of document =
    let roles = validate_identifiers (lit "assignment.roles") document.roles in
    let capabilities = validate_identifiers (lit "assignment.capabilities") document.capabilities in
    (
      record {
        available = true;
        schema_version = supported_schema_version;
        roles = some roles.0;
        capabilities = some capabilities.0;
      },
      roles.1 ++ capabilities.1,
    )

-- The branches of `Collect` on the decoded document, and on the file.
unfoldable pub of_document : Bytes → Result Assigned → Assignment × List Warning
of_document path (err e) = (empty_assignment, assignment_warning (lit "parse ") path e ∷ [])
of_document path (ok document) = assignment_of document

unfoldable pub of_file : Bytes → Result Bytes → Assignment × List Warning
of_file path (err e) = (empty_assignment, assignment_warning (lit "read ") path e ∷ [])
of_file path (ok s) = of_document path (decode_document s)

unfoldable pub collect_assignment : Collector → Assignment × List Warning
collect_assignment c = of_file c.path (c.read_file c.path)
