-- ===== src/Role/Names.antt =====
-- `validateIdentifiers` of internal/role/role.go: which identifiers it returns, and its warnings.
use lts_agent.Base.{
  ◌≡◌, refl, ◌∙◌, ◌&&◌, ◌||◌, Bytes, List, [], ◌∷◌, contains, same_iff, arith, map, if◌then◌else◌,
}
use lts_agent.Go.Sets.{add}
use lts_agent.Go.Sets.Order.{
  IsIncreasing, IsUnique, contains-add, add-IsUnique, contains-sort_strings,
  sort_strings-IsIncreasing,
}
use lts_agent.Identifier.{valid}
use lts_agent.Desired.Fields.{IsNames}
use lts_agent.Role.{collect, invalid_identifier, validate_identifiers}

-- The invalid identifiers, in order.
abbrev pub rejected : List Bytes → List Bytes
rejected [] = []
rejected (v ∷ vs) = let rest = rejected vs in if valid v then rest else v ∷ rest

collect-IsUnique :
    (source : Bytes) (unique values : List Bytes)
    → IsUnique unique
    → IsUnique (collect source unique values).0
unfolding collect
collect-IsUnique source unique [] u = u
collect-IsUnique source unique (v ∷ values) u = ground (
  arith,
  collect-IsUnique source (add v unique) values (add-IsUnique v unique u),
  collect-IsUnique source unique values u,
)

collect-contains :
    (source : Bytes) (unique values : List Bytes) (a : Bytes)
    → contains a (collect source unique values).0
      ≡ (contains a unique || (valid a && contains a values))
unfolding collect contains
collect-contains source unique [] a = ground arith
collect-contains source unique (v ∷ values) a = ground (
  arith,
  collect-contains source (add v unique) values a,
  contains-add a v unique,
  collect-contains source unique values a,
  same_iff a v,
)

collect-warnings :
    (source : Bytes) (unique values : List Bytes)
    → (collect source unique values).1 ≡ map (invalid_identifier source) (rejected values)
unfolding collect
collect-warnings source unique [] = refl
collect-warnings source unique (v ∷ values) =
    ground
      (arith, collect-warnings source (add v unique) values, collect-warnings source unique values)

-- The identifiers returned are in strict order and are exactly the valid ones among the values;
-- there is one warning for each invalid value, in order.
pub validate_identifiers_exact :
    (source : Bytes) (values : List Bytes)
    → IsIncreasing (validate_identifiers source values).0
      × ((a : Bytes)
          → contains a (validate_identifiers source values).0 ≡ (valid a && contains a values))
      × ((validate_identifiers source values).1 ≡ map (invalid_identifier source) (rejected values))
unfolding validate_identifiers contains
validate_identifiers_exact source values = (
  sort_strings-IsIncreasing (collect source [] values).0 (collect-IsUnique source [] values tt),
  λ a. contains-sort_strings a (collect source [] values).0 ∙ collect-contains source [] values a,
  collect-warnings source [] values,
)

pub validate_identifiers-IsNames :
    (source : Bytes) (values : List Bytes) → IsNames (validate_identifiers source values).0
validate_identifiers-IsNames source values =
    let (i, c, _) = validate_identifiers_exact source values in (i, λ a m. ground (arith, c a))
