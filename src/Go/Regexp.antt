-- ===== src/Go/Regexp.antt =====
-- Package `regexp`, for the anchored patterns over ASCII classes that the agent uses: matching by
-- derivatives. `^` and `$` are implied, since `MatchString` is asked for the whole text.
use lts_agent.Base.{
  ℕ, zero, suc, ◌≤◌, ◌≡◌, refl, Bool, true, false, ◌&&◌, ◌||◌, Bytes, [], ◌∷◌, leb, if◌then◌else◌,
  all, length, arith,
}

pub data Regex : Type 0 where
  nothing : Regex
  empty_text : Regex
  class : (ℕ → Bool) → Regex
  alt : Regex → Regex → Regex
  seq : Regex → Regex → Regex
  star : Regex → Regex
  upto : ℕ → Regex → Regex

-- `r+`.
abbrev pub plus : Regex → Regex
plus r = seq r (star r)

unfoldable pub matches_empty : Regex → Bool
matches_empty nothing = false
matches_empty empty_text = true
matches_empty (class p) = false
matches_empty (alt r s) = matches_empty r || matches_empty s
matches_empty (seq r s) = matches_empty r && matches_empty s
matches_empty (star r) = true
matches_empty (upto n r) = true

-- `alt` and `seq` without needless parts.
either_of : Regex → Regex → Regex
either_of nothing s = s
either_of r nothing = r
either_of r s = alt r s

then_of : Regex → Regex → Regex
then_of nothing s = nothing
then_of empty_text s = s
then_of r s = seq r s

-- What remains to be matched behind the byte `c`.
unfoldable pub derivative : ℕ → Regex → Regex
unfolding either_of then_of matches_empty
derivative c nothing = nothing
derivative c empty_text = nothing
derivative c (class p) = if p c then empty_text else nothing
derivative c (alt r s) = either_of (derivative c r) (derivative c s)
derivative c (seq r s) =
    let first = then_of (derivative c r) s in
    let second = derivative c s in if matches_empty r then either_of first second else first
derivative c (star r) = then_of (derivative c r) (star r)
derivative c (upto zero r) = nothing
derivative c (upto (suc n) r) = then_of (derivative c r) (upto n r)

-- `pattern.MatchString(text)`.
unfoldable pub matches : Regex → Bytes → Bool
unfolding derivative
matches r [] = matches_empty r
matches r (c ∷ s) = matches (derivative c r) s

pub matches-nothing : (s : Bytes) → matches nothing s ≡ false
unfolding matches
matches-nothing [] = refl
matches-nothing (c ∷ s) = matches-nothing s

-- A class repeated at most `n` times.
pub matches-upto :
    (n : ℕ) (p : ℕ → Bool) (s : Bytes)
    → matches (upto n (class p)) s ≡ (all p s && leb (length s) n)
unfolding matches
matches-upto n p [] = ground arith
matches-upto zero p (c ∷ s) = ground (arith, matches-nothing s)
matches-upto (suc n) p (c ∷ s) = ground (arith, matches-upto n p s, matches-nothing s)

pub matches-seq :
    (p : ℕ → Bool) (r : Regex) (c : ℕ) (s : Bytes)
    → matches (seq (class p) r) (c ∷ s) ≡ (p c && matches r s)
unfolding matches
matches-seq p r c s = ground (arith, matches-nothing s)

-- One byte of a class, then at most `n` bytes of another.
abbrev pub HeadThen : (ℕ → Bool) → (ℕ → Bool) → ℕ → Bytes → Type 0
HeadThen p q n [] = ⊥
HeadThen p q n (c ∷ s) = (p c ≡ true) × (all q s ≡ true) × (length s ≤ n)

pub matches-HeadThen :
    (p q : ℕ → Bool) (n : ℕ) (s : Bytes)
    → matches (seq (class p) (upto n (class q))) s ≡ true
    → HeadThen p q n s
unfolding matches
matches-HeadThen p q n [] h = cc
matches-HeadThen p q n (c ∷ s) h =
    ground (arith, matches-seq p (upto n (class q)) c s, matches-upto n q s)

pub HeadThen-matches :
    (p q : ℕ → Bool) (n : ℕ) (s : Bytes)
    → HeadThen p q n s
    → matches (seq (class p) (upto n (class q))) s ≡ true
HeadThen-matches p q n [] h = absurd h
HeadThen-matches p q n (c ∷ s) h =
    ground (arith, matches-seq p (upto n (class q)) c s, matches-upto n q s)
