-- ===== src/Identifier/Words.antt =====
-- What the pattern of internal/identifier/identifier.go accepts, said without the pattern.
use lts_agent.Base.{
  ℕ, ◌≡◌, refl, Bool, false, ◌&&◌, not, Bytes, List, [], ◌∷◌, all, is_empty, ◌==◌, arith,
  if◌then◌else◌,
}
use lts_agent.Go.Regexp.{
  Regex, nothing, alt, derivative, class, seq, star, plus, matches, matches-nothing,
}
use lts_agent.Go.Strings.{split}
use lts_agent.Go.Strings.Parts.{split-cases}
use lts_agent.Identifier.{is_name_byte, valid}

-- A word is not empty, and holds lower-case letters and digits only.
abbrev pub is_word : Bytes → Bool
is_word w = not (is_empty w) && all is_name_byte w

module _ (p q : ℕ → Bool) where
  -- The states of the match: inside a word, where a word must begin, and none.
  abbrev inside : Regex
  inside = seq (star (class p)) (star (seq (class q) (plus (class p))))

  abbrev outside : Regex
  outside = seq (plus (class p)) (star (seq (class q) (plus (class p))))

  module _ (c : ℕ) where
    derivative-inside : derivative c inside ≡ (
        if p c
        then (if q c then alt inside outside else inside)
        else if q c
        then outside
        else nothing)
    unfolding derivative
    derivative-inside = ground arith

    derivative-outside : derivative c outside ≡ (if p c then inside else nothing)
    unfolding derivative
    derivative-outside = ground arith

abbrev is_dash : ℕ → Bool
is_dash c = c == b'-'

-- The rest of a word, then words.
abbrev ends_word : List Bytes → Bool
ends_word [] = false
ends_word (w ∷ ws) = all is_name_byte w && all is_word ws

matches_states :
    (s : Bytes)
    → (matches (inside is_name_byte is_dash) s ≡ ends_word (split b'-' s))
      × (matches (outside is_name_byte is_dash) s ≡ all is_word (split b'-' s))
unfolding matches split
matches_states [] = (refl, refl)
matches_states (c ∷ s) =
    let (w, ws, e) = split-cases b'-' s in
    let (i, o) = matches_states s in
    let none = matches-nothing s in
    ground (
      arith,
      derivative-inside is_name_byte is_dash c,
      derivative-outside is_name_byte is_dash c,
      none,
    )

-- A string is a valid identifier exactly when it is a list of words joined by single hyphens:
-- split at its hyphens, it leaves only non-empty runs of lower-case letters and digits.
pub valid-eq-all-split : (value : Bytes) → valid value ≡ all is_word (split b'-' value)
unfolding valid
valid-eq-all-split value = (matches_states value).1
