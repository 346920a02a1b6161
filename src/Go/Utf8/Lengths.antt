-- ===== src/Go/Utf8/Lengths.antt =====
-- How long `strings.ToValidUTF8` can make a string.
use lts_agent.Base.{
  ℕ, ℕ-cases, zero, suc, ◌*◌, ◌≤◌, Bool, true, false, Bytes, [], ◌∷◌, length, arith, ◌++◌,
  if◌then◌else◌, inl, inr,
}
use lts_agent.Go.Utf8.{valid_from, to_valid_utf8, rune_length, replacement}

replaced :
    (bad : Bool) (n : ℕ) (t : Bytes)
    → length t ≤ 3 * n
    → length ((if bad then [] else replacement) ++ t) ≤ 3 * suc n
replaced true n t h = omega (arith, h)
replaced false n t h = omega (arith, h)

valid_from-length :
    (pending : ℕ) (bad : Bool) (s : Bytes) → length (valid_from pending bad s) ≤ 3 * length s
unfolding valid_from
valid_from-length zero bad [] = omega arith
valid_from-length (suc pending) bad [] = omega arith
valid_from-length (suc pending) bad (c ∷ s) = omega (arith, valid_from-length pending false s)
valid_from-length zero bad (c ∷ s) = elim (ℕ-cases (rune_length (c ∷ s))) [
  | inl e ↦ rw (valid_from, e) (replaced bad (length s) _ (valid_from-length zero true s))
  | inr (n, e) ↦ rw (valid_from, e) (omega (arith, valid_from-length n false s))
]

-- A byte that is not valid becomes at most the three bytes of U+FFFD.
pub to_valid_utf8-length : (s : Bytes) → length (to_valid_utf8 s) ≤ 3 * length s
unfolding to_valid_utf8
to_valid_utf8-length s = valid_from-length 0 false s
