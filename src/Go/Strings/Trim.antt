-- ===== src/Go/Strings/Trim.antt =====
-- What `strings.TrimSpace` leaves alone.
use mathlib.Core.List.{reverse-append, reverse-cons, reverse-reverse}
use lts_agent.Base.{
  ℕ, ◌≡◌, refl, sym, ap, ◌∙◌, Bool, true, false, ◌&&◌, Bytes, [], ◌∷◌, ◌++◌, reverse, all, arith,
  within, ◌≤◌, ◌+◌, length, if◌then◌else◌, suc,
}
use lts_agent.Go.Strings.{
  is_ascii_space, is_space2, is_space3, trim_left, trim_reversed, trim_space,
}

-- A visible ASCII character.
abbrev pub is_visible : ℕ → Bool
is_visible c = within 0x21 0x7E c

trim_left-visible : (c : ℕ) (s : Bytes) → is_visible c ≡ true → trim_left (c ∷ s) ≡ c ∷ s
unfolding trim_left
trim_left-visible c [] h = ground arith
trim_left-visible c (b ∷ []) h = ground arith
trim_left-visible c (b ∷ d ∷ s) h = ground arith

trim_reversed-visible : (c : ℕ) (s : Bytes) → is_visible c ≡ true → trim_reversed (c ∷ s) ≡ c ∷ s
unfolding trim_reversed
trim_reversed-visible c [] h = ground arith
trim_reversed-visible c (b ∷ []) h = ground arith
trim_reversed-visible c (b ∷ d ∷ s) h = ground arith

pub all-append : (p : ℕ → Bool) (s t : Bytes) → all p (s ++ t) ≡ (all p s && all p t)
all-append p [] t = refl
all-append p (c ∷ s) t = ground (arith, all-append p s t)

all-reverse : (p : ℕ → Bool) (s : Bytes) → all p s ≡ true → all p (reverse s) ≡ true
all-reverse p [] h = refl
all-reverse p (c ∷ s) h =
    rw reverse-cons (ground (arith, all-append p (reverse s) (c ∷ []), all-reverse p s))

-- Both trims leave a string of visible characters alone.
trim_left-id : (s : Bytes) → all is_visible s ≡ true → trim_left s ≡ s
unfolding trim_left
trim_left-id [] h = refl
trim_left-id (c ∷ s) h = trim_left-visible c s (ground arith)

trim_reversed-id : (s : Bytes) → all is_visible s ≡ true → trim_reversed s ≡ s
unfolding trim_reversed
trim_reversed-id [] h = refl
trim_reversed-id (c ∷ s) h = trim_reversed-visible c s (ground arith)

trim_space-framed :
    (c : ℕ) (s : Bytes) (d : ℕ) (t : Bytes)
    → is_visible c ≡ true
    → is_visible d ≡ true
    → reverse (c ∷ s) ≡ d ∷ t
    → trim_space (c ∷ s) ≡ c ∷ s
unfolding trim_space
trim_space-framed c s d t hc hd e =
    ap (λ r. reverse (trim_reversed (reverse r))) (trim_left-visible c s hc)
    ∙ ap (λ r. reverse (trim_reversed r)) e
    ∙ ap reverse (trim_reversed-visible d t hd)
    ∙ ap reverse (sym e)
    ∙ reverse-reverse (c ∷ s)

-- A string of visible characters is left alone.
pub trim_space-visible : (s : Bytes) → all is_visible s ≡ true → trim_space s ≡ s
unfolding trim_space
trim_space-visible s h =
    ap (λ r. reverse (trim_reversed (reverse r))) (trim_left-id s h)
    ∙ ap reverse (trim_reversed-id (reverse s) (all-reverse is_visible s h))
    ∙ reverse-reverse s

-- A string is left alone if its first and its last character are visible.
pub trim_space-between :
    (c : ℕ) (s : Bytes) (d : ℕ)
    → is_visible c ≡ true
    → is_visible d ≡ true
    → trim_space (c ∷ (s ++ (d ∷ []))) ≡ c ∷ (s ++ (d ∷ []))
trim_space-between c s d hc hd =
    trim_space-framed c (s ++ (d ∷ [])) d (reverse s ++ (c ∷ [])) hc hd
      (reverse-cons c (s ++ (d ∷ [])) ∙ ap (λ r. r ++ (c ∷ [])) (reverse-append s (d ∷ [])))

longer : (m n : ℕ) → m ≤ n → m ≤ suc n
longer m n h = omega (arith, h)

reflexive : (n : ℕ) → n ≤ n
reflexive n = omega arith

selected-length :
    (p q r : Bool) (n : ℕ) (x y z t : Bytes)
    → length x ≤ n
    → length y ≤ n
    → length z ≤ n
    → length t ≤ n
    → length (if p then x else if q then y else if r then z else t) ≤ n
selected-length true q r n x y z t h1 h2 h3 h4 = h1
selected-length false true r n x y z t h1 h2 h3 h4 = h2
selected-length false false true n x y z t h1 h2 h3 h4 = h3
selected-length false false false n x y z t h1 h2 h3 h4 = h4

trim_left-length : (s : Bytes) → length (trim_left s) ≤ length s
unfolding trim_left
trim_left-length [] = omega arith
trim_left-length (a ∷ []) = ground arith
trim_left-length (a ∷ b ∷ []) = ground (arith, trim_left-length (b ∷ []))
trim_left-length (a ∷ b ∷ c ∷ s) =
    selected-length (is_ascii_space a) (is_space2 a b) (is_space3 a b c) (length (a ∷ b ∷ c ∷ s))
      (trim_left (b ∷ c ∷ s)) (trim_left (c ∷ s)) (trim_left s) (a ∷ b ∷ c ∷ s)
      (longer _ _ (trim_left-length (b ∷ c ∷ s)))
      (longer _ _ (longer _ _ (trim_left-length (c ∷ s))))
      (longer _ _ (longer _ _ (longer _ _ (trim_left-length s)))) (reflexive _)

trim_reversed-length : (s : Bytes) → length (trim_reversed s) ≤ length s
unfolding trim_reversed
trim_reversed-length [] = omega arith
trim_reversed-length (a ∷ []) = ground arith
trim_reversed-length (b ∷ a ∷ []) = ground (arith, trim_reversed-length (a ∷ []))
trim_reversed-length (c ∷ b ∷ a ∷ s) =
    selected-length (is_ascii_space c) (is_space2 b c) (is_space3 a b c) (length (c ∷ b ∷ a ∷ s))
      (trim_reversed (b ∷ a ∷ s)) (trim_reversed (a ∷ s)) (trim_reversed s) (c ∷ b ∷ a ∷ s)
      (longer _ _ (trim_reversed-length (b ∷ a ∷ s)))
      (longer _ _ (longer _ _ (trim_reversed-length (a ∷ s))))
      (longer _ _ (longer _ _ (longer _ _ (trim_reversed-length s)))) (reflexive _)

length-append : (s t : Bytes) → length (s ++ t) ≡ length s + length t
length-append [] t = omega arith
length-append (c ∷ s) t = omega (arith, length-append s t)

length-reverse : (s : Bytes) → length (reverse s) ≡ length s
length-reverse [] = refl
length-reverse (c ∷ s) =
    rw reverse-cons (omega (arith, length-append (reverse s) (c ∷ []), length-reverse s))

-- Trimming makes no string longer.
pub trim_space-length : (s : Bytes) → length (trim_space s) ≤ length s
unfolding trim_space
trim_space-length s = omega (
  arith,
  length-reverse (trim_reversed (reverse (trim_left s))),
  trim_reversed-length (reverse (trim_left s)),
  length-reverse (trim_left s),
  trim_left-length s,
)
