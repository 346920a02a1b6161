-- ===== src/Go/Unquote.antt =====
-- Package `strconv`: `Unquote` of a text that starts with a double quote. Its shortcut for a text
-- without escapes gives what the loop gives.
pub mod Enough
use lts_agent.Base.{
  ℕ, zero, suc, ◌+◌, ◌-◌, ◌*◌, Bool, ◌||◌, Bytes, [], ◌∷◌, ◌++◌, Option, none, some, ltb, leb, ◌==◌,
  if◌then◌else◌, within, length, take, drop, is_empty,
}
use lts_agent.Go.Numbers.{is_hex_digit, hex_value}
use lts_agent.Go.Utf8.{rune_length, replacement, encode_rune}

-- `n` more hexadecimal digits, after those that make up `v`.
read_hex : ℕ → ℕ → Bytes → Option (ℕ × Bytes)
read_hex zero v s = some (v, s)
read_hex (suc n) v [] = none
read_hex (suc n) v (c ∷ s) =
    let rest = read_hex n (v * 16 + hex_value c) s in if is_hex_digit c then rest else none

read_octal : ℕ → ℕ → Bytes → Option (ℕ × Bytes)
read_octal zero v s = some (v, s)
read_octal (suc n) v [] = none
read_octal (suc n) v (c ∷ s) =
    let rest = read_octal n (v * 8 + (c - b'0')) s in if within b'0' b'7' c then rest else none

-- `utf8.ValidRune`.
is_rune : ℕ → Bool
is_rune r = ltb r 0xD800 || within 0xE000 0x10FFFF r

byte_of : Option (ℕ × Bytes) → Option (Bytes × Bytes)
byte_of none = none
byte_of (some (v, s)) = if leb v 255 then some (v ∷ [], s) else none

rune_of : Option (ℕ × Bytes) → Option (Bytes × Bytes)
unfolding is_rune
rune_of none = none
rune_of (some (r, s)) = if is_rune r then some (encode_rune r, s) else none

-- The byte that an escape of one letter stands for.
escaped_byte : ℕ → Option ℕ
escaped_byte c =
    if c == b'a'
    then some 7
    else if c == b'b'
    then some 8
    else if c == b'f'
    then some 12
    else if c == b'n'
    then some 10
    else if c == b'r'
    then some 13
    else if c == b't'
    then some 9
    else if c == b'v'
    then some 11
    else if c == b'\\' || c == b'"'
    then some c
    else none

-- `UnquoteChar` behind a backslash.
unescape : ℕ → Bytes → Option (Bytes × Bytes)
unfolding read_hex read_octal byte_of rune_of escaped_byte
unescape c s =
    if c == b'x'
    then byte_of (read_hex 2 0 s)
    else if c == b'u'
    then rune_of (read_hex 4 0 s)
    else if c == b'U'
    then rune_of (read_hex 8 0 s)
    else if within b'0' b'7' c
    then byte_of (read_octal 2 (c - b'0') s)
    else elim (escaped_byte c) [ none ↦ none | some d ↦ some (d ∷ [], s) ]

-- `UnquoteChar`, of a text that does not start with the quote, and the refusal of a newline.
unquote_char : ℕ → Bytes → Option (Bytes × Bytes)
unfolding unescape
unquote_char c s =
    if c == b'\\'
    then elim s [ [] ↦ none | d ∷ rest ↦ unescape d rest ]
    else if c == 10
    then none
    else elim (rune_length (c ∷ s)) [
      | zero ↦ some (replacement, s)
      | suc n ↦ some (c ∷ take n s, drop n s)
    ]

-- The loop of `unquote` behind the opening quote, and the check that nothing follows the closing
-- one. Each round takes at least one byte.
unfoldable pub unquote_from : ℕ → Bytes → Option Bytes
unfolding unquote_char
unquote_from zero s = none
unquote_from (suc fuel) [] = none
unquote_from (suc fuel) (c ∷ s) =
    if c == b'"' then if is_empty s then some [] else none else elim (unquote_char c s) [
      | none ↦ none
      | some (piece, after) ↦ elim (unquote_from fuel after) [
        | none ↦ none
        | some rest ↦ some (piece ++ rest)
      ]
    ]

-- `Unquote`, on what stands behind the opening quote.
unfoldable pub unquote : Bytes → Option Bytes
unfolding unquote_from
unquote s = unquote_from (suc (length s)) s
