-- ===== src/Go/Json/Decode.antt =====
-- Decoding into structs: one value and nothing behind it, known fields only.
use lts_agent.Base.{
  Bool, ◌&&◌, Bytes, List, [], ◌∷◌, ◌++◌, Option, none, some, lit, same, ◌==◌, if◌then◌else◌,
  is_empty, ◌≡◌, arith, Option-cases, inl, inr,
}
use lts_agent.Go.Errors.{Error, text, wrap, Result, ok, err, Result-cases, ◌>>=◌, ◌>>◌, given}
use lts_agent.Go.Numbers.{ℤ, read_int}
use lts_agent.Go.Strings.{lower_byte}
use lts_agent.Go.Json.Value.{
  Value, null, bool, num, str, arr, obj, Items, nil, cons, Fields, end, field,
}
use lts_agent.Go.Json.Parse.{skip_space, first_value}

abbrev pub syntax_error : Error
syntax_error = text (lit "invalid JSON")

abbrev pub type_error : Error
type_error = text (lit "json: cannot unmarshal value")

abbrev pub unknown_field : Bytes → Error
unknown_field name = text (lit "json: unknown field " ++ name)

-- `decoder.Decode(&trailing)` must find the end of the text.
unfoldable pub no_trailing : Bytes → Result (Unit {0})
no_trailing rest = if is_empty (skip_space rest) then ok tt else elim (first_value rest) [
  | some _ ↦ err (text (lit "unexpected trailing JSON value"))
  | none ↦ err (wrap (lit "invalid trailing content: ") syntax_error)
]

-- The body that `decodeStrict` of coresync and config, `decodeResponse` of core, `decodeDocument`
-- of role and `Parse` of desired share: one value, decoded, with only white space behind it.
unfoldable pub decode_one {ℓ} : {A : Type ℓ} → (Value → Result A) → Bytes → Result A
unfolding no_trailing
decode_one decode s = do
  (v, rest) ← given (first_value s) syntax_error
  a ← decode v
  no_trailing rest
  ok a

-- What is decoded from a text is decoded from one value.
pub decode_one-value {ℓ} :
    {A : Type ℓ} (decode : Value → Result A) (s : Bytes) (a : A)
    → decode_one decode s ≡ ok a
    → (v : Value) × (decode v ≡ ok a)
unfolding decode_one
decode_one-value decode s a h = elim (Option-cases (first_value s)) [
  | inl e ↦ absurd (ground arith)
  | inr ((v, rest), e) ↦ elim (Result-cases (decode v)) [
    | inr (f, g) ↦ absurd (ground arith)
    | inl (b, g) ↦ (v, ground arith)
  ]
]

-- The name under which fields are compared when no field has the key exactly: ASCII letters in
-- lower case, and the two runes outside ASCII that fold to a letter, U+017F and U+212A.
fold_name : Bytes → Bytes
fold_name [] = []
fold_name (a ∷ []) = lower_byte a ∷ []
fold_name (a ∷ b ∷ []) =
    let rest = fold_name (b ∷ []) in
    if a == 0xC5 && b == 0xBF then b's' ∷ [] else lower_byte a ∷ rest
fold_name (a ∷ b ∷ c ∷ s) =
    let rest1 = fold_name (b ∷ c ∷ s) in
    let rest2 = fold_name (c ∷ s) in
    let rest3 = fold_name s in
    if a == 0xC5 && b == 0xBF
    then b's' ∷ rest2
    else if a == 0xE2 && (b == 0x84 && c == 0xAA)
    then b'k' ∷ rest3
    else lower_byte a ∷ rest1

find_name : (Bytes → Bool) → List Bytes → Option Bytes
find_name p [] = none
find_name p (n ∷ ns) = if p n then some n else find_name p ns

-- The field of a struct that a key names: exactly, or up to case.
unfoldable pub match_name : List Bytes → Bytes → Option Bytes
unfolding fold_name find_name
match_name names key = elim (find_name (same key) names) [
  | some n ↦ some n
  | none ↦ find_name (λ n. same (fold_name n) (fold_name key)) names
]

-- A struct with fields `names`; `set` stores the value of one field. Unknown fields are refused,
-- a field given twice is set twice, and `null` in place of the object changes nothing.
module _ {S : Type 0} (names : List Bytes) (set : Bytes → Value → S → Result S) where
  pub decode_fields : Fields → S → Result S
  decode_fields end s = ok s
  decode_fields (field key v fs) s = do
    name ← given (match_name names key) (unknown_field key)
    s' ← set name v s
    decode_fields fs s'

  unfoldable pub decode_struct : S → Value → Result S
  unfolding decode_fields match_name
  decode_struct zero_value null = ok zero_value
  decode_struct zero_value (obj fs) = decode_fields fs zero_value
  decode_struct zero_value _ = err type_error

-- Into an `int`, a `string`: `null` leaves what was there.
unfoldable pub int_into : ℤ → Value → Result ℤ
int_into old null = ok old
int_into old (num literal) = given (read_int literal) type_error
int_into old _ = err type_error

unfoldable pub string_into : Bytes → Value → Result Bytes
string_into old null = ok old
string_into old (str s) = ok s
string_into old _ = err type_error

-- Into a pointer: `null` makes it nil.
unfoldable pub int_pointer : Value → Result (Option ℤ)
int_pointer (num literal) = do n ← given (read_int literal) type_error; ok (some n)
int_pointer null = ok none
int_pointer _ = err type_error

unfoldable pub string_pointer : Value → Result (Option Bytes)
string_pointer (str s) = ok (some s)
string_pointer null = ok none
string_pointer _ = err type_error

unfoldable pub bool_pointer : Value → Result (Option Bool)
bool_pointer (bool b) = ok (some b)
bool_pointer null = ok none
bool_pointer _ = err type_error

-- The elements of a `[]string`; a `null` is the empty string.
unfoldable pub decode_strings : Items → Result (List Bytes)
decode_strings nil = ok []
decode_strings (cons v vs) = do s ← string_into [] v; rest ← decode_strings vs; ok (s ∷ rest)

-- Into a `*[]string`.
unfoldable pub strings_pointer : Value → Result (Option (List Bytes))
strings_pointer (arr vs) = do l ← decode_strings vs; ok (some l)
strings_pointer null = ok none
strings_pointer _ = err type_error
