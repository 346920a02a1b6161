-- ===== src/Go/Json/Parse.antt =====
-- The text of JSON values, as `json.Decoder` reads it. Each call spends fuel or a byte, so the
-- length of the text is fuel enough.
pub mod Lengths
pub mod Fuel
use lts_agent.Base.{
  ℕ, zero, suc, ◌+◌, ◌-◌, ◌*◌, Bool, true, false, ◌&&◌, ◌||◌, Bytes, [], ◌∷◌, ◌++◌, Option, none,
  some, ltb, ◌==◌, if◌then◌else◌, within, length, take, drop, lit, is_empty,
}
use lts_agent.Go.Numbers.{is_digit, is_hex_digit, hex_value}
use lts_agent.Go.Strings.{has_prefix}
use lts_agent.Go.Utf8.{rune_length, replacement, encode_rune}
use lts_agent.Go.Json.Value.{
  Value, null, bool, num, str, arr, obj, Items, nil, cons, Fields, end, field,
}

infixl 5 ◌>>=◌
abbrev ◌>>=◌ : {A B : Type 0} → Option A → (A → Option B) → Option B
none >>= f = none
some a >>= f = f a

abbrev is_json_space : ℕ → Bool
is_json_space c = c == 32 || c == 9 || c == 10 || c == 13

unfoldable pub skip_space : Bytes → Bytes
skip_space [] = []
skip_space (c ∷ s) = if is_json_space c then skip_space s else c ∷ s

-- `XXXX` of an escape `\uXXXX`.
read_hex4 : Bytes → Option (ℕ × Bytes)
read_hex4 (a ∷ b ∷ c ∷ d ∷ s) =
    if is_hex_digit a && (is_hex_digit b && (is_hex_digit c && is_hex_digit d))
    then some (hex_value a * 4096 + hex_value b * 256 + hex_value c * 16 + hex_value d, s)
    else none
read_hex4 s = none

-- `\uXXXX`, where a low surrogate may follow.
read_low : Bytes → Option (ℕ × Bytes)
unfolding read_hex4
read_low (a ∷ b ∷ s) = if a == b'\\' && b == b'u' then read_hex4 s else none
read_low s = none

join_halves : ℕ → Bytes → Option (ℕ × Bytes) → Bytes × Bytes
join_halves high rest none = (replacement, rest)
join_halves high rest (some (low, after)) =
    if within 0xDC00 0xDFFF low
    then (encode_rune ((high - 0xD800) * 1024 + (low - 0xDC00) + 0x10000), after)
    else (replacement, rest)

-- The bytes that an escape `\uXXXX` stands for. A high surrogate takes a low one behind it.
read_unicode : Bytes → Option (Bytes × Bytes)
unfolding read_hex4 read_low join_halves
read_unicode s = do
  (r, rest) ← read_hex4 s
  some
      (if within 0xD800 0xDBFF r then join_halves r rest (read_low rest) else (encode_rune r, rest))

-- The byte that a short escape stands for.
unfoldable pub short_escape : ℕ → Option ℕ
short_escape c =
    if c == b'"' || c == b'\\' || c == b'/'
    then some c
    else if c == b'b'
    then some 8
    else if c == b'f'
    then some 12
    else if c == b'n'
    then some 10
    else if c == b'r'
    then some 13
    else if c == b't'
    then some 9
    else none

-- One escape, behind its backslash.
unfoldable pub read_escape : Bytes → Option (Bytes × Bytes)
unfolding read_unicode short_escape
read_escape [] = none
read_escape (c ∷ s) =
    if c == b'u' then read_unicode s else (do d ← short_escape c; some (d ∷ [], s))

-- One rune of a string: an escape, a valid rune, or an invalid byte, which becomes U+FFFD.
unfoldable pub read_piece : ℕ → Bytes → Option (Bytes × Bytes)
unfolding read_escape
read_piece c s =
    if c == b'\\' then read_escape s else if ltb c 32 then none else elim (rune_length (c ∷ s)) [
      | zero ↦ some (replacement, s)
      | suc n ↦ some (c ∷ take n s, drop n s)
    ]

-- The rest of a string, behind its opening quote.
unfoldable pub read_string : ℕ → Bytes → Option (Bytes × Bytes)
unfolding read_piece
read_string zero s = none
read_string (suc fuel) [] = none
read_string (suc fuel) (c ∷ s) = elim (c == b'"') [
  | true ↦ some ([], s)
  | false ↦ (do
    (piece, after) ← read_piece c s
    (text, rest) ← read_string fuel after
    some (piece ++ text, rest))
]

-- The longest run of digits in front.
span_digits : Bytes → Bytes × Bytes
span_digits [] = ([], [])
span_digits (c ∷ s) =
    let (ds, rest) = span_digits s in if is_digit c then (c ∷ ds, rest) else ([], c ∷ s)

some_digits : Bytes → Option (Bytes × Bytes)
unfolding span_digits
some_digits s = let (ds, rest) = span_digits s in if is_empty ds then none else some (ds, rest)

-- No digit follows a leading zero.
read_whole : Bytes → Option (Bytes × Bytes)
unfolding some_digits
read_whole [] = none
read_whole (c ∷ s) = if c == b'0' then some (c ∷ [], s) else some_digits (c ∷ s)

read_fraction : Bytes → Option (Bytes × Bytes)
unfolding some_digits
read_fraction [] = some ([], [])
read_fraction (c ∷ s) =
    if c == b'.' then (do (ds, rest) ← some_digits s; some (c ∷ ds, rest)) else some ([], c ∷ s)

read_sign : Bytes → Bytes × Bytes
read_sign [] = ([], [])
read_sign (c ∷ s) = if c == b'+' || c == b'-' then (c ∷ [], s) else ([], c ∷ s)

read_exponent : Bytes → Option (Bytes × Bytes)
unfolding some_digits read_sign
read_exponent [] = some ([], [])
read_exponent (c ∷ s) =
    if c == b'e' || c == b'E'
    then (do
      let signed = read_sign s
      (ds, rest) ← some_digits signed.1
      some (c ∷ (signed.0 ++ ds), rest))
    else some ([], c ∷ s)

unfoldable pub read_number : Bytes → Option (Bytes × Bytes)
unfolding read_whole read_fraction read_exponent
read_number [] = none
read_number (c ∷ s) = do
  let negative = c == b'-'
  (whole, s1) ← read_whole (if negative then s else c ∷ s)
  (fraction, s2) ← read_fraction s1
  (exponent, s3) ← read_exponent s2
  some ((if negative then c ∷ [] else []) ++ (whole ++ (fraction ++ exponent)), s3)

-- A value that starts with none of `{`, `[` and `"`.
unfoldable pub read_scalar : Bytes → Option (Value × Bytes)
unfolding read_number
read_scalar s =
    if has_prefix (lit "null") s
    then some (null, drop 4 s)
    else if has_prefix (lit "true") s
    then some (bool true, drop 4 s)
    else if has_prefix (lit "false") s
    then some (bool false, drop 5 s)
    else (do (digits, rest) ← read_number s; some (num digits, rest))

-- The text behind an expected byte and the white space before it.
unfoldable pub expect : ℕ → Bytes → Option Bytes
unfolding skip_space
expect b s = elim (skip_space s) [ [] ↦ none | c ∷ rest ↦ if c == b then some rest else none ]

unfoldable mutual
  unfolding skip_space read_string read_scalar expect

  pub read_value : ℕ → Bytes → Option (Value × Bytes)
  read_value zero s = none
  read_value (suc fuel) s = elim (skip_space s) [
    | [] ↦ none
    | c ∷ rest ↦ elim (c == b'"') [
      | true ↦ (do (text, after) ← read_string (length rest) rest; some (str text, after))
      | false ↦ elim (c == b'[') [
        | true ↦ (do (items, after) ← read_items fuel true rest; some (arr items, after))
        | false ↦ elim (c == b'{') [
          | true ↦ (do (fields, after) ← read_fields fuel true rest; some (obj fields, after))
          | false ↦ read_scalar (c ∷ rest)
        ]
      ]
    ]
  ]

  -- The items up to `]`; the flag says that no item has been read yet.
  pub read_items : ℕ → Bool → Bytes → Option (Items × Bytes)
  read_items zero first s = none
  read_items (suc fuel) first s = elim (expect b']' s) [
    | some rest ↦ some (nil, rest)
    | none ↦ (do
      start ← if first then some s else expect b',' s
      (v, after) ← read_value fuel start
      (vs, rest) ← read_items fuel false after
      some (cons v vs, rest))
  ]

  pub read_fields : ℕ → Bool → Bytes → Option (Fields × Bytes)
  read_fields zero first s = none
  read_fields (suc fuel) first s = elim (expect b'}' s) [
    | some rest ↦ some (end, rest)
    | none ↦ (do
      start ← if first then some s else expect b',' s
      quoted ← expect b'"' start
      (name, s1) ← read_string (length quoted) quoted
      s2 ← expect b':' s1
      (v, after) ← read_value fuel s2
      (vs, rest) ← read_fields fuel false after
      some (field name v vs, rest))
  ]

-- `decoder.Decode`: the first value of a text, and what follows it.
unfoldable pub first_value : Bytes → Option (Value × Bytes)
unfolding read_value
first_value s = read_value (suc (length s)) s
