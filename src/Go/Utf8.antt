-- ===== src/Go/Utf8.antt =====
-- UTF-8: the runes of a byte string, and `strings.ToValidUTF8`.
pub mod Lengths
use lts_agent.Base.{
  ℕ, zero, suc, ◌+◌, ◌/◌, ◌%◌, Bool, true, false, ◌&&◌, Bytes, [], ◌∷◌, ◌++◌, ltb, ◌==◌,
  if◌then◌else◌, within,
}

abbrev is_tail : ℕ → Bool
is_tail c = within 0x80 0xBF c

-- The second byte of a rune of three or four bytes, by the first.
is_second : ℕ → ℕ → Bool
is_second a b =
    if a == 0xE0
    then within 0xA0 0xBF b
    else if a == 0xED
    then within 0x80 0x9F b
    else if a == 0xF0
    then within 0x90 0xBF b
    else if a == 0xF4
    then within 0x80 0x8F b
    else is_tail b

two_bytes : ℕ → ℕ → Bool
two_bytes a b = within 0xC2 0xDF a && is_tail b

three_bytes : ℕ → ℕ → ℕ → Bool
unfolding is_second
three_bytes a b c = within 0xE0 0xEF a && (is_second a b && is_tail c)

four_bytes : ℕ → ℕ → ℕ → ℕ → Bool
unfolding is_second
four_bytes a b c d = within 0xF0 0xF4 a && (is_second a b && (is_tail c && is_tail d))

-- The number of bytes of the valid rune at the head, or 0 when none stands there.
unfoldable pub rune_length : Bytes → ℕ
unfolding two_bytes three_bytes four_bytes
rune_length [] = 0
rune_length (a ∷ []) = if ltb a 0x80 then 1 else 0
rune_length (a ∷ b ∷ []) = if ltb a 0x80 then 1 else if two_bytes a b then 2 else 0
rune_length (a ∷ b ∷ c ∷ []) =
    if ltb a 0x80 then 1 else if two_bytes a b then 2 else if three_bytes a b c then 3 else 0
rune_length (a ∷ b ∷ c ∷ d ∷ s) =
    if ltb a 0x80
    then 1
    else if two_bytes a b
    then 2
    else if three_bytes a b c
    then 3
    else if four_bytes a b c d
    then 4
    else 0

-- U+FFFD.
abbrev pub replacement : Bytes
replacement = 0xEF ∷ 0xBF ∷ 0xBD ∷ []

-- `pending` bytes of a rune are still to be copied; `bad` says that the last byte was replaced.
valid_from : ℕ → Bool → Bytes → Bytes
valid_from pending bad [] = []
valid_from (suc pending) bad (c ∷ s) = c ∷ valid_from pending false s
valid_from zero bad (c ∷ s) = elim (rune_length (c ∷ s)) [
  | zero ↦ (if bad then [] else replacement) ++ valid_from 0 true s
  | suc n ↦ c ∷ valid_from n false s
]

-- `strings.ToValidUTF8(s, "\uFFFD")`: each run of invalid bytes becomes one U+FFFD.
unfoldable pub to_valid_utf8 : Bytes → Bytes
unfolding valid_from
to_valid_utf8 s = valid_from 0 false s

-- The UTF-8 bytes of a code point; a surrogate half becomes U+FFFD.
unfoldable pub encode_rune : ℕ → Bytes
encode_rune r =
    if ltb r 0x80
    then r ∷ []
    else if ltb r 0x800
    then (0xC0 + r / 64) ∷ (0x80 + r % 64) ∷ []
    else if within 0xD800 0xDFFF r
    then replacement
    else if ltb r 0x10000
    then (0xE0 + r / 4096) ∷ (0x80 + r / 64 % 64) ∷ (0x80 + r % 64) ∷ []
    else (0xF0 + r / 262144) ∷ (0x80 + r / 4096 % 64) ∷ (0x80 + r / 64 % 64) ∷ (0x80 + r % 64) ∷ []
