-- ===== src/Go/Strings.antt =====
-- Package `strings`: prefixes, trimming, splitting and lower case.
pub mod Trim
pub mod Parts
use lts_agent.Base.{
  ◌++◌, drop, length, is_empty, ℕ, ◌+◌, Bool, true, false, ◌&&◌, ◌||◌, Bytes, List, [], ◌∷◌,
  reverse, Option, none, some, ◌==◌, if◌then◌else◌, within,
}

-- `strings.HasPrefix(s, prefix)`, the prefix first.
unfoldable pub has_prefix : Bytes → Bytes → Bool
has_prefix [] s = true
has_prefix (p ∷ ps) [] = false
has_prefix (p ∷ ps) (c ∷ s) = p == c && has_prefix ps s

abbrev pub is_ascii_space : ℕ → Bool
is_ascii_space c = within 9 13 c || c == 32

-- The white space outside ASCII, U+0085 and U+00A0.
is_space2 : ℕ → ℕ → Bool
is_space2 a b = a == 0xC2 && (b == 0x85 || b == 0xA0)

-- U+1680, U+2000 to U+200A, U+2028, U+2029, U+202F, U+205F and U+3000.
is_space3 : ℕ → ℕ → ℕ → Bool
is_space3 a b c =
    a == 0xE1 && (b == 0x9A && c == 0x80)
    || a == 0xE2
      && (b == 0x80 && (within 0x80 0x8A c || c == 0xA8 || c == 0xA9 || c == 0xAF)
          || b == 0x81 && c == 0x9F)
    || a == 0xE3 && (b == 0x80 && c == 0x80)

trim_left : Bytes → Bytes
unfolding is_space2 is_space3
trim_left [] = []
trim_left (a ∷ []) = if is_ascii_space a then [] else a ∷ []
trim_left (a ∷ b ∷ []) =
    let rest = trim_left (b ∷ []) in
    if is_ascii_space a then rest else if is_space2 a b then [] else a ∷ b ∷ []
trim_left (a ∷ b ∷ c ∷ s) =
    let rest1 = trim_left (b ∷ c ∷ s) in
    let rest2 = trim_left (c ∷ s) in
    let rest3 = trim_left s in
    if is_ascii_space a
    then rest1
    else if is_space2 a b
    then rest2
    else if is_space3 a b c
    then rest3
    else a ∷ b ∷ c ∷ s

-- The same from the right end, on the reversed string.
trim_reversed : Bytes → Bytes
unfolding is_space2 is_space3
trim_reversed [] = []
trim_reversed (a ∷ []) = if is_ascii_space a then [] else a ∷ []
trim_reversed (b ∷ a ∷ []) =
    let rest = trim_reversed (a ∷ []) in
    if is_ascii_space b then rest else if is_space2 a b then [] else b ∷ a ∷ []
trim_reversed (c ∷ b ∷ a ∷ s) =
    let rest1 = trim_reversed (b ∷ a ∷ s) in
    let rest2 = trim_reversed (a ∷ s) in
    let rest3 = trim_reversed s in
    if is_ascii_space c
    then rest1
    else if is_space2 b c
    then rest2
    else if is_space3 a b c
    then rest3
    else c ∷ b ∷ a ∷ s

-- `strings.TrimSpace`.
unfoldable pub trim_space : Bytes → Bytes
unfolding trim_left trim_reversed
trim_space s = reverse (trim_reversed (reverse (trim_left s)))

-- `strings.ToLower` on an ASCII string.
abbrev pub lower_byte : ℕ → ℕ
lower_byte c = if within b'A' b'Z' c then c + 32 else c

-- `strings.Split(s, sep)` at a separator of one byte.
unfoldable pub split : ℕ → Bytes → List Bytes
split sep [] = [] ∷ []
split sep (c ∷ s) = elim (split sep s) [
  | [] ↦ []
  | part ∷ parts ↦ if c == sep then [] ∷ part ∷ parts else (c ∷ part) ∷ parts
]

-- `strings.Cut(s, sep)` at a separator of one byte; `none` where it is not found.
unfoldable pub cut : ℕ → Bytes → Option (Bytes × Bytes)
cut sep [] = none
cut sep (c ∷ s) =
    if c == sep
    then some ([], s)
    else elim (cut sep s) [ none ↦ none | some (before, after) ↦ some (c ∷ before, after) ]

-- `strings.Cut(s, sep)` at a separator of any length.
unfoldable pub cut_at : Bytes → Bytes → Option (Bytes × Bytes)
cut_at sep [] = if is_empty sep then some ([], []) else none
cut_at sep (c ∷ s) =
    if has_prefix sep (c ∷ s)
    then some ([], drop (length sep) (c ∷ s))
    else elim (cut_at sep s) [ none ↦ none | some (before, after) ↦ some (c ∷ before, after) ]

-- What stands before the last byte, if that byte is `b`.
unfoldable pub cut_last : ℕ → Bytes → Option Bytes
cut_last b [] = none
cut_last b (c ∷ s) =
    if is_empty s
    then if c == b then some [] else none
    else elim (cut_last b s) [ none ↦ none | some before ↦ some (c ∷ before) ]

-- `strings.Join(parts, sep)`.
unfoldable pub join : Bytes → List Bytes → Bytes
join sep [] = []
join sep (part ∷ parts) = if is_empty parts then part else part ++ (sep ++ join sep parts)

abbrev is_one_of : ℕ → Bytes → Bool
is_one_of c [] = false
is_one_of c (b ∷ chars) = c == b || is_one_of c chars

-- `strings.ContainsAny(s, chars)` for ASCII characters.
unfoldable pub contains_any : Bytes → Bytes → Bool
contains_any [] chars = false
contains_any (c ∷ s) chars = is_one_of c chars || contains_any s chars
