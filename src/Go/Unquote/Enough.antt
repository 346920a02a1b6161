-- ===== src/Go/Unquote/Enough.antt =====
-- The fuel of the loop of `unquote`: more than the length of the text is enough.
use lts_agent.Base.{
  ap, ℕ, zero, suc, ◌<◌, ◌+◌, ◌-◌, ◌*◌, ◌≡◌, refl, Bytes, [], ◌∷◌, Option, some, none, arith,
  length, drop, Option-cases, inl, inr, is_empty, if◌then◌else◌, if-ensures, take, ◌++◌, ◌==◌,
}
use lts_agent.Go.Utf8.{rune_length, replacement}
use lts_agent.Go.Numbers.{hex_value}
use lts_agent.Go.Json.Parse.Lengths.{Within, drop-length}
use lts_agent.Go.Unquote.{
  read_hex, read_octal, byte_of, rune_of, escaped_byte, unescape, unquote_char, unquote_from,
  unquote,
}

read_hex-length : (n v : ℕ) (s : Bytes) → Within (length s) (read_hex n v s)
unfolding read_hex
read_hex-length zero v s a rest h = ground arith
read_hex-length (suc n) v [] a rest h = cc
read_hex-length (suc n) v (c ∷ s) a rest h =
    ground (arith, read_hex-length n (v * 16 + hex_value c) s a rest)

read_octal-length : (n v : ℕ) (s : Bytes) → Within (length s) (read_octal n v s)
unfolding read_octal
read_octal-length zero v s a rest h = ground arith
read_octal-length (suc n) v [] a rest h = cc
read_octal-length (suc n) v (c ∷ s) a rest h =
    ground (arith, read_octal-length n (v * 8 + (c - b'0')) s a rest)

byte_of-length : (k : ℕ) (o : Option (ℕ × Bytes)) → Within k o → Within k (byte_of o)
unfolding byte_of
byte_of-length k none w a rest h = cc
byte_of-length k (some (v, s)) w a rest h = ground (arith, w v s refl)

rune_of-length : (k : ℕ) (o : Option (ℕ × Bytes)) → Within k o → Within k (rune_of o)
unfolding rune_of
rune_of-length k none w a rest h = cc
rune_of-length k (some (v, s)) w a rest h = ground (arith, w v s refl)

letter-length :
    (o : Option ℕ) (s : Bytes)
    → Within
        (length s)
        (elim o as (λ _. Option (Bytes × Bytes)) [ none ↦ none | some d ↦ some (d ∷ [], s) ])
letter-length none s a rest h = cc
letter-length (some d) s a rest h = ground arith

none-Within : {A : Type 0} (k : ℕ) → Within {A = A} k none
none-Within k a rest h = cc

if-Within :
    {A : Type 0} (k : ℕ) (b : _) (x y : Option (A × Bytes))
    → Within k x
    → Within k y
    → Within k (if b then x else y)
if-Within k b x y p q = if-ensures (Within k) b p q

unescape-length : (c : ℕ) (s : Bytes) → Within (length s) (unescape c s)
unfolding unescape
unescape-length c s = if-Within _ _ _ _ (byte_of-length _ _ (read_hex-length 2 0 s)) (
    if-Within _ _ _ _ (rune_of-length _ _ (read_hex-length 4 0 s)) (
      if-Within _ _ _ _ (rune_of-length _ _ (read_hex-length 8 0 s)) (
        if-Within _ _ _ _ (byte_of-length _ _ (read_octal-length 2 (c - b'0') s))
          (letter-length (escaped_byte c) s))))

backslash-length :
    (s : Bytes)
    → Within
        (length s)
        (elim s as (λ _. Option (Bytes × Bytes)) [ [] ↦ none | d ∷ rest ↦ unescape d rest ])
backslash-length [] a rest h = cc
backslash-length (d ∷ s) a rest h = let q = unescape-length d s a rest h in omega (arith, q)

rune-length :
    (n c : ℕ) (s : Bytes)
    → Within (length s) (elim n as (λ _. Option (Bytes × Bytes)) [
      | zero ↦ some (replacement, s)
      | suc k ↦ some (c ∷ take k s, drop k s)
    ])
rune-length zero c s a rest h = ground arith
rune-length (suc n) c s a rest h = ground (arith, drop-length n s)

unquote_char-length : (c : ℕ) (s : Bytes) → Within (length s) (unquote_char c s)
unfolding unquote_char
unquote_char-length c s =
    if-Within _ _ _ _ (backslash-length s)
      (if-Within _ _ _ _ (none-Within _) (rune-length (rune_length (c ∷ s)) c s))

-- What the loop makes of a character, with `f` for what stands behind it.
joined : Option (Bytes × Bytes) → (Bytes → Option Bytes) → Option Bytes
joined none f = none
joined (some (piece, after)) f = elim (f after) [ none ↦ none | some rest ↦ some (piece ++ rest) ]

joined-cong :
    (o : Option (Bytes × Bytes)) (f g : Bytes → Option Bytes)
    → ((piece after : Bytes) → o ≡ some (piece, after) → f after ≡ g after)
    → joined o f ≡ joined o g
unfolding joined
joined-cong none f g k = refl
joined-cong (some (piece, after)) f g k = rw (joined, k piece after refl) refl

unquote_from-joined :
    (n c : ℕ) (s : Bytes)
    → unquote_from (suc n) (c ∷ s) ≡ (
        if c == b'"'
        then if is_empty s then some [] else none
        else joined (unquote_char c s) (unquote_from n))
unfolding unquote_from joined
unquote_from-joined n c s = elim (Option-cases (unquote_char c s)) [
  | inl e ↦ rw e refl
  | inr (a, e) ↦ rw e refl
]

-- With more fuel than the text is long, the fuel has no effect.
unquote_from-stable :
    (n m : ℕ) (s : Bytes) → length s < n → length s < m → unquote_from n s ≡ unquote_from m s
unfolding unquote_from
unquote_from-stable zero m s p q = absurd (omega (arith, p))
unquote_from-stable (suc n) zero s p q = absurd (omega (arith, q))
unquote_from-stable (suc n) (suc m) [] p q = refl
unquote_from-stable (suc n) (suc m) (c ∷ s) p q =
    rw (unquote_from-joined n c s, unquote_from-joined m c s)
      (ap (λ x. if c == b'"' then if is_empty s then some [] else none else x)
        (joined-cong (unquote_char c s) (unquote_from n) (unquote_from m) (λ piece after e.
          let r = unquote_char-length c s piece after e in
          unquote_from-stable n m after (omega (arith, p, r)) (omega (arith, q, r)))))

-- Whatever fuel above the length of the text the loop is given, it returns what `unquote` does.
unquote-enough : (n : ℕ) (s : Bytes) → length s < n → unquote_from n s ≡ unquote s
unfolding unquote
unquote-enough n s p = unquote_from-stable n (suc (length s)) s p (omega arith)
