-- ===== src/Desired/Fields.antt =====
-- `decodeIdentifiers` of internal/desired/desired.go: what the reading of one array returns.
use lts_agent.Base.{
  ◌≡◌, refl, sym, ◌∙◌, Bool, true, false, ◌||◌, Bytes, List, [], ◌∷◌, ◌++◌, Option, none, some, lit,
  all, contains, arith, Bool-cases, inl, inr, ◌⊎◌, same_iff,
}
use lts_agent.Go.Errors.{text, ok, err, Result-cases}
use lts_agent.Go.Sets.{add, sort_strings}
use lts_agent.Go.Sets.Order.{
  IsIncreasing, IsUnique, contains-add, add-IsUnique, contains-sort_strings,
  sort_strings-IsIncreasing, IsIncreasing-ext,
}
use lts_agent.Go.Json.Value.{Value, arr, Items, is_null}
use lts_agent.Go.Json.Decode.{decode_strings}
use lts_agent.Identifier.{valid}
use lts_agent.Desired.{unmarshal_strings, collect, decode_identifiers}

collect-IsUnique :
    (name : Bytes) (unique values keys : List Bytes)
    → IsUnique unique
    → collect name unique values ≡ ok keys
    → IsUnique keys
unfolding collect
collect-IsUnique name unique [] keys u h = ground arith
collect-IsUnique name unique (v ∷ values) keys u h =
    ground (arith, collect-IsUnique name (add v unique) values keys (add-IsUnique v unique u))

collect-contains :
    (name : Bytes) (unique values keys : List Bytes) (a : Bytes)
    → collect name unique values ≡ ok keys
    → contains a keys ≡ (contains a unique || contains a values)
unfolding collect contains
collect-contains name unique [] keys a h = ground arith
collect-contains name unique (v ∷ values) keys a h =
    ground (arith, collect-contains name (add v unique) values keys a, contains-add a v unique)

collect-valid :
    (name : Bytes) (unique values keys : List Bytes)
    → collect name unique values ≡ ok keys
    → all valid values ≡ true
unfolding collect
collect-valid name unique [] keys h = refl
collect-valid name unique (v ∷ values) keys h =
    ground (arith, collect-valid name (add v unique) values keys)

collect_total :
    (name : Bytes) (unique values : List Bytes)
    → all valid values ≡ true
    → (keys : List Bytes) × (collect name unique values ≡ ok keys)
unfolding collect
collect_total name unique [] h = (unique, refl)
collect_total name unique (v ∷ values) h =
    let (keys, e) = collect_total name (add v unique) values (ground arith) in (keys, ground arith)

collect_refuses :
    (name : Bytes) (unique values : List Bytes)
    → all valid values ≡ false
    → collect name unique values ≡ err (text (name ++ lit " contains an invalid identifier"))
unfolding collect
collect_refuses name unique [] h = cc
collect_refuses name unique (v ∷ values) h =
    ground (arith, collect_refuses name (add v unique) values)

-- What a successful reading of a field went through.
record Reading (name : Bytes) (raw : Option Value) (l : List Bytes) : Type 0 where
  value : Value
  values : List Bytes
  keys : List Bytes
  raw_is : raw ≡ some value
  decoded : unmarshal_strings value ≡ ok values
  collected : collect name [] values ≡ ok keys
  sorted : l ≡ sort_strings keys

decode_identifiers-Reading :
    (name : Bytes) (raw : Option Value) (l : List Bytes)
    → decode_identifiers name raw ≡ ok l
    → Reading name raw l
unfolding decode_identifiers
decode_identifiers-Reading name none l h = cc
decode_identifiers-Reading name (some v) l h = elim (Result-cases (unmarshal_strings v)) [
  | inr (e, u) ↦ absurd (ground arith)
  | inl (values, u) ↦ elim (Result-cases (collect name [] values)) [
    | inr (e, c) ↦ absurd (ground arith)
    | inl (keys, c) ↦ record {
      value = v;
      values = values;
      keys = keys;
      raw_is = refl;
      decoded = u;
      collected = c;
      sorted = ground arith;
    }
  ]
]

module _ {name : Bytes} {raw : Option Value} {l : List Bytes} (r : Reading name raw l) where
  Reading-IsIncreasing : IsIncreasing l
  Reading-IsIncreasing =
      rw r.sorted
        (sort_strings-IsIncreasing r.keys (collect-IsUnique name [] r.values r.keys tt r.collected))

  Reading-contains : (a : Bytes) → contains a l ≡ contains a r.values
  unfolding contains
  Reading-contains a =
      rw (r.sorted, contains-sort_strings) (collect-contains name [] r.values r.keys a r.collected)

all-contains :
    (p : Bytes → Bool) (xs : List Bytes) (a : Bytes)
    → all p xs ≡ true
    → contains a xs ≡ true
    → p a ≡ true
unfolding contains
all-contains p [] a h c = cc
all-contains p (x ∷ xs) a h c = ground (arith, all-contains p xs a, same_iff a x)

-- Strict order, and valid identifiers only.
abbrev pub IsNames : List Bytes → Type 0
IsNames l = IsIncreasing l × ((a : Bytes) → contains a l ≡ true → valid a ≡ true)

pub decode_identifiers-IsNames :
    (name : Bytes) (raw : Option Value) (l : List Bytes)
    → decode_identifiers name raw ≡ ok l
    → IsNames l
decode_identifiers-IsNames name raw l h =
    let r = decode_identifiers-Reading name raw l h in
    (
      Reading-IsIncreasing r,
      λ a m.
          all-contains valid r.values a (collect-valid name [] r.values r.keys r.collected)
            (sym (Reading-contains r a) ∙ m),
    )

-- Reading a field of the document decides: where the array decodes to `values`, the result is the
-- error for an invalid identifier if one of them is invalid, and otherwise the list in strict
-- order that has exactly the members of `values`.
pub decode_identifiers_exact :
    (name : Bytes) (vs : Items) (values : List Bytes)
    → decode_strings vs ≡ ok values
    → ((all valid values ≡ false)
        × (decode_identifiers name (some (arr vs))
            ≡ err (text (name ++ lit " contains an invalid identifier"))))
      ⊎ ((l : List Bytes) × (all valid values ≡ true)
          × (decode_identifiers name (some (arr vs)) ≡ ok l)
          × IsIncreasing l
          × ((a : Bytes) → contains a l ≡ contains a values))
unfolding decode_identifiers is_null contains
decode_identifiers_exact name vs values d = elim (Bool-cases (all valid values)) [
  | inr bad ↦ inl (bad, ground (arith, collect_refuses name [] values bad))
  | inl good ↦
      let (keys, c) = collect_total name [] values good in
      inr (
        sort_strings keys,
        good,
        ground arith,
        sort_strings-IsIncreasing keys (collect-IsUnique name [] values keys tt c),
        λ a. contains-sort_strings a keys ∙ collect-contains name [] values keys a c,
      )
]

unmarshal_strings-arr : (vs : Items) → unmarshal_strings (arr vs) ≡ decode_strings vs
unfolding unmarshal_strings
unmarshal_strings-arr vs = refl

Reading-values :
    {name : Bytes} {vs : Items} {values l : List Bytes}
    → (r : Reading name (some (arr vs)) l) → decode_strings vs ≡ ok values
    → r.values ≡ values
Reading-values {vs = vs} r d = cc (r.raw_is, r.decoded, unmarshal_strings-arr vs)

-- The order in which the array lists the identifiers, and how often, has no effect: two arrays
-- with the same members give the same list.
pub decode_identifiers_order :
    (name name' : Bytes) (vs vs' : Items) (values values' l l' : List Bytes)
    → decode_strings vs ≡ ok values
    → decode_strings vs' ≡ ok values'
    → ((a : Bytes) → contains a values ≡ contains a values')
    → decode_identifiers name (some (arr vs)) ≡ ok l
    → decode_identifiers name' (some (arr vs')) ≡ ok l'
    → l ≡ l'
decode_identifiers_order name name' vs vs' values values' l l' d d' e h h' =
    let r = decode_identifiers-Reading name (some (arr vs)) l h in
    let r' = decode_identifiers-Reading name' (some (arr vs')) l' h' in
    IsIncreasing-ext l l' (Reading-IsIncreasing r) (Reading-IsIncreasing r') λ a.
      Reading-contains r a
      ∙ rw (Reading-values r d, Reading-values r' d') (e a)
      ∙ sym (Reading-contains r' a)
