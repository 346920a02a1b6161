-- ===== src/Role/Sound.antt =====
-- `Collect` of internal/role/role.go, on every path.
use lts_agent.Base.{
  ◌≡◌, refl, sym, ◌∙◌, true, false, ◌&&◌, Bytes, List, [], ◌∷◌, ◌++◌, some, all, contains, same_iff,
  arith, inl, inr, lit,
}
use lts_agent.Go.Errors.{Result, ok, err, error_text}
use lts_agent.Go.Sets.Order.{IsIncreasing-ext}
use lts_agent.Go.Json.Value.{arr, Items}
use lts_agent.Go.Json.Decode.{decode_strings}
use lts_agent.Identifier.{valid}
use lts_agent.Inventory.{Assignment, Warning}
use lts_agent.Desired
use lts_agent.Desired.Fields.{IsNames, decode_identifiers_exact}
use lts_agent.Role.{
  Collector, Assigned, of_document, of_file, collect_assignment, decode_document, assignment_of,
  validate_identifiers, supported_schema_version, empty_assignment,
}
use lts_agent.Role.Names.{rejected, validate_identifiers_exact, validate_identifiers-IsNames}

-- What a report says of the assignment: both lists are there, never nil, in strict order and of
-- valid identifiers; where the assignment is not available they are empty.
pub record IsReported (a : Assignment) : Type 0 where
  pub roles : List Bytes
  pub capabilities : List Bytes
  pub roles_are : a.roles ≡ some roles
  pub capabilities_are : a.capabilities ≡ some capabilities
  pub roles_names : IsNames roles
  pub capabilities_names : IsNames capabilities
  pub version_is : a.available ≡ true → a.schema_version ≡ supported_schema_version
  pub nothing : a.available ≡ false → (roles ≡ []) × (capabilities ≡ [])

not-contains-nil : (a : Bytes) → contains a [] ≡ true → valid a ≡ true
unfolding contains
not-contains-nil a h = cc

IsReported-empty : IsReported empty_assignment
IsReported-empty = record {
  roles = [];
  capabilities = [];
  roles_are = refl;
  capabilities_are = refl;
  roles_names = (tt, not-contains-nil);
  capabilities_names = (tt, not-contains-nil);
  version_is = λ h. cc;
  nothing = λ h. (refl, refl);
}

IsReported-assignment_of : (d : Assigned) → IsReported (assignment_of d).0
unfolding assignment_of
IsReported-assignment_of d = record {
  roles = (validate_identifiers (lit "assignment.roles") d.roles).0;
  capabilities = (validate_identifiers (lit "assignment.capabilities") d.capabilities).0;
  roles_are = refl;
  capabilities_are = refl;
  roles_names = validate_identifiers-IsNames (lit "assignment.roles") d.roles;
  capabilities_names = validate_identifiers-IsNames (lit "assignment.capabilities") d.capabilities;
  version_is = λ h. refl;
  nothing = λ h. cc;
}

IsReported-of_document : (path : Bytes) (r : Result Assigned) → IsReported (of_document path r).0
unfolding of_document
IsReported-of_document path (err e) = IsReported-empty
IsReported-of_document path (ok d) = IsReported-assignment_of d

IsReported-of_file : (path : Bytes) (r : Result Bytes) → IsReported (of_file path r).0
unfolding of_file
IsReported-of_file path (err e) = IsReported-empty
IsReported-of_file path (ok s) = IsReported-of_document path (decode_document s)

-- Whatever the file holds and whether or not it can be read, the assignment that `Collect`
-- returns has both lists, in strict order and of valid identifiers, at schema version 1 when it
-- is available and empty when it is not.
pub collect_assignment-IsReported : (c : Collector) → IsReported (collect_assignment c).0
unfolding collect_assignment
collect_assignment-IsReported c = IsReported-of_file c.path (c.read_file c.path)

-- An unavailable assignment comes with exactly one warning, of source `assignment`.
abbrev pub WarnsOnce : Assignment × List Warning → Type 0
WarnsOnce r =
    r.0.available ≡ false
    → (m : Bytes) × (r.1 ≡ record { source = lit "assignment"; message = m } ∷ [])

of_document_warns : (path : Bytes) (r : Result Assigned) → WarnsOnce (of_document path r)
unfolding of_document assignment_of
of_document_warns path (err e) _ = (lit "parse " ++ (path ++ (lit ": " ++ error_text e)), refl)
of_document_warns path (ok d) h = cc

of_file_warns : (path : Bytes) (r : Result Bytes) → WarnsOnce (of_file path r)
unfolding of_file
of_file_warns path (err e) _ = (lit "read " ++ (path ++ (lit ": " ++ error_text e)), refl)
of_file_warns path (ok s) h = of_document_warns path (decode_document s) h

pub collect_assignment_warns : (c : Collector) → WarnsOnce (collect_assignment c)
unfolding collect_assignment
collect_assignment_warns c = of_file_warns c.path (c.read_file c.path)

rejected-nil : (values : List Bytes) → all valid values ≡ true → rejected values ≡ []
rejected-nil [] h = refl
rejected-nil (v ∷ values) h = ground (arith, rejected-nil values)

all-contains :
    (values : List Bytes) (a : Bytes)
    → all valid values ≡ true
    → (valid a && contains a values) ≡ contains a values
unfolding contains
all-contains [] a h = ground arith
all-contains (v ∷ values) a h = ground (arith, all-contains values a, same_iff a v)

-- The strict reader of Core's response and the lenient reader of the local file agree on every
-- array that the strict one accepts: the same list, and no warning.
pub validate_identifiers-decode_identifiers :
    (name source : Bytes) (vs : Items) (values l : List Bytes)
    → decode_strings vs ≡ ok values
    → Desired.decode_identifiers name (some (arr vs)) ≡ ok l
    → validate_identifiers source values ≡ (l, [])
validate_identifiers-decode_identifiers name source vs values l d h =
    elim (decode_identifiers_exact name vs values d) [
      | inl (bad, e) ↦ absurd (cc)
      | inr (l', good, e, increasing, members) ↦
          let (increasing', members', warned) = validate_identifiers_exact source values in
          let lists : (validate_identifiers source values).0 ≡ l' =
            IsIncreasing-ext (validate_identifiers source values).0 l' increasing' increasing
              (λ a. members' a ∙ all-contains values a good ∙ sym (members a)) in
          ground (arith, warned, rejected-nil values good)
    ]
