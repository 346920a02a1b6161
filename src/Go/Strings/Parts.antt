-- ===== src/Go/Strings/Parts.antt =====
-- What `strings.Split` and `strings.Cut` make of a text that was put together.
use lts_agent.Base.{
  ℕ, ◌≡◌, refl, Bool, true, not, Bytes, List, [], ◌∷◌, ◌++◌, all, arith, ◌==◌, some, Bool-cases,
  inl, inr,
}
use lts_agent.Go.Strings.{split, cut, cut_last}

-- A split always has a first part.
pub split-cases :
    (sep : ℕ) (s : Bytes) → (part : Bytes) × (parts : List Bytes) × (split sep s ≡ part ∷ parts)
unfolding split
split-cases sep [] = ([], [], refl)
split-cases sep (c ∷ s) =
    let (part, parts, e) = split-cases sep s in
    elim (Bool-cases (c == sep)) [
      | inl h ↦ ([], part ∷ parts, rw (e, h))
      | inr h ↦ (c ∷ part, parts, rw (e, h))
    ]

-- No byte is the separator.
abbrev pub is_free : ℕ → Bytes → Bool
is_free sep s = all (λ c. not (c == sep)) s

pub split-append :
    (sep : ℕ) (s rest : Bytes)
    → is_free sep s ≡ true
    → split sep (s ++ (sep ∷ rest)) ≡ s ∷ split sep rest
unfolding split
split-append sep [] rest h = let (part, parts, e) = split-cases sep rest in ground (arith, e)
split-append sep (c ∷ s) rest h = ground (arith, split-append sep s rest)

pub cut-append :
    (sep : ℕ) (s rest : Bytes) → is_free sep s ≡ true → cut sep (s ++ (sep ∷ rest)) ≡ some (s, rest)
unfolding cut
cut-append sep [] rest h = ground arith
cut-append sep (c ∷ s) rest h = ground (arith, cut-append sep s rest)

pub cut_last-append : (b : ℕ) (s : Bytes) → cut_last b (s ++ (b ∷ [])) ≡ some s
unfolding cut_last
cut_last-append b [] = ground arith
cut_last-append b (c ∷ []) = ground arith
cut_last-append b (c ∷ d ∷ s) = ground (arith, cut_last-append b (d ∷ s))
