-- ===== src/Go/Json/Parse/Lengths.antt =====
-- How much of a text each part of the JSON reader leaves.
use lts_agent.Base.{
  ℕ, ℕ-cases, zero, suc, ◌≤◌, ◌<◌, ◌+◌, ◌≡◌, refl, ap, Bytes, [], ◌∷◌, Option, some, none, arith,
  length, drop, lit, ◌||◌, ltb, Bool-cases, Option-cases, inl, inr, ◌⊎◌, if◌then◌else◌, ◌==◌,
}
use lts_agent.Go.Strings.{has_prefix}
use lts_agent.Go.Utf8.{rune_length}
use lts_agent.Go.Json.Value.{Value}
use lts_agent.Go.Json.Parse.{
  ◌>>=◌, skip_space, read_hex4, read_low, join_halves, read_unicode, short_escape, read_escape,
  read_piece, read_string, span_digits, some_digits, read_whole, read_fraction, read_sign,
  read_exponent, read_number, read_scalar, expect,
}

-- The first of two steps succeeds if both do.
pub bind-eq-some :
    {A B : Type 0} (o : Option A) (f : A → Option B) (b : B)
    → (o >>= f) ≡ some b
    → (a : A) × (o ≡ some a) × (f a ≡ some b)
bind-eq-some none f b h = cc
bind-eq-some (some a) f b h = (a, refl, h)

pub List-cases : (s : Bytes) → (s ≡ []) ⊎ ((c : ℕ) × (t : Bytes) × (s ≡ c ∷ t))
List-cases [] = inl refl
List-cases (c ∷ t) = inr (c, t, refl)

-- What is left is no longer than the text, or shorter.
abbrev pub Within : {A : Type 0} → ℕ → Option (A × Bytes) → Type 0
Within {A} n o = (a : A) (rest : Bytes) → o ≡ some (a, rest) → length rest ≤ n

pub skip_space-length : (s : Bytes) → length (skip_space s) ≤ length s
unfolding skip_space
skip_space-length [] = omega arith
skip_space-length (c ∷ s) = ground (arith, skip_space-length s)

pub expect-length : (b : ℕ) (s rest : Bytes) → expect b s ≡ some rest → length rest < length s
unfolding expect
expect-length b s rest h = elim (List-cases (skip_space s)) [
  | inl e ↦ absurd (ground arith)
  | inr (c, t, e) ↦ ground (arith, skip_space-length s, ap length e)
]

pub drop-length : (n : ℕ) (s : Bytes) → length (drop n s) ≤ length s
drop-length zero s = omega arith
drop-length (suc n) [] = omega arith
drop-length (suc n) (c ∷ s) = omega (arith, drop-length n s)

read_hex4-length : (s : Bytes) → Within (length s) (read_hex4 s)
unfolding read_hex4
read_hex4-length (a ∷ b ∷ c ∷ d ∷ s) r rest h = ground arith
read_hex4-length _ r rest h = ground arith

read_low-length : (s : Bytes) → Within (length s) (read_low s)
unfolding read_low
read_low-length (a ∷ b ∷ s) r rest h = ground (arith, read_hex4-length s r rest)
read_low-length _ r rest h = ground arith

join_halves-length :
    (high : ℕ) (rest : Bytes) (low : Option (ℕ × Bytes))
    → Within (length rest) low
    → length (join_halves high rest low).1 ≤ length rest
unfolding join_halves
join_halves-length high rest none h = omega arith
join_halves-length high rest (some (low, after)) h = ground (arith, h low after refl)

read_unicode-length : (s : Bytes) → Within (length s) (read_unicode s)
unfolding read_unicode
read_unicode-length s piece rest h =
    let ((r, after), e, g) = bind-eq-some (read_hex4 s) _ (piece, rest) h in
    ground (
      arith,
      read_hex4-length s r after e,
      join_halves-length r after (read_low after) (read_low-length after),
    )

read_escape-length : (s : Bytes) → Within (length s) (read_escape s)
unfolding read_escape
read_escape-length [] piece rest h = absurd (cc)
read_escape-length (c ∷ s) piece rest h = elim (Bool-cases (c == b'u')) [
  | inl e ↦ ground (arith, read_unicode-length s piece rest)
  | inr e ↦ elim (Option-cases (short_escape c)) [
    | inl f ↦ absurd (ground arith)
    | inr (d, f) ↦ ground arith
  ]
]

-- One piece of a string takes at least its first byte.
pub read_piece-length : (c : ℕ) (s : Bytes) → Within (length s) (read_piece c s)
unfolding read_piece
read_piece-length c s piece rest h = elim (Bool-cases (c == b'\\')) [
  | inl e ↦ ground (arith, read_escape-length s piece rest)
  | inr e ↦ elim (Bool-cases (ltb c 32)) [
    | inl f ↦ absurd (ground arith)
    | inr f ↦ elim (ℕ-cases (rune_length (c ∷ s))) [
      | inl g ↦ ground arith
      | inr (n, g) ↦ ground (arith, drop-length n s)
    ]
  ]
]

pub read_string-length :
    (fuel : ℕ) (s text rest : Bytes)
    → read_string fuel s ≡ some (text, rest)
    → length rest < length s
unfolding read_string
read_string-length zero s text rest h = absurd (cc)
read_string-length (suc fuel) [] text rest h = absurd (cc)
read_string-length (suc fuel) (c ∷ s) text rest h = elim (Bool-cases (c == b'"')) [
  | inl e ↦ ground arith
  | inr e ↦
      let ((piece, after), f, g) =
        bind-eq-some (read_piece c s) _ (text, rest) (rw (read_string, e) at h) in
      let ((more, last), k, l) = bind-eq-some (read_string fuel after) _ (text, rest) g in
      ground (arith, read_piece-length c s piece after f, read_string-length fuel after more last k)
]

span_digits-length : (s : Bytes) → length (span_digits s).1 + length (span_digits s).0 ≡ length s
unfolding span_digits
span_digits-length [] = omega arith
span_digits-length (c ∷ s) = ground (arith, span_digits-length s)

some_digits-length : (s ds rest : Bytes) → some_digits s ≡ some (ds, rest) → length rest < length s
unfolding some_digits
some_digits-length s ds rest h = elim (List-cases (span_digits s).0) [
  | inl e ↦ absurd (ground arith)
  | inr (c, t, e) ↦ ground (arith, span_digits-length s, ap length e)
]

read_whole-length : (s ds rest : Bytes) → read_whole s ≡ some (ds, rest) → length rest < length s
unfolding read_whole
read_whole-length [] ds rest h = absurd (cc)
read_whole-length (c ∷ s) ds rest h = ground (arith, some_digits-length (c ∷ s) ds rest)

read_fraction-length : (s : Bytes) → Within (length s) (read_fraction s)
unfolding read_fraction
read_fraction-length [] ds rest h = ground arith
read_fraction-length (c ∷ s) ds rest h = elim (Bool-cases (c == b'.')) [
  | inl e ↦
      let ((digits, after), f, g) = bind-eq-some (some_digits s) _ (ds, rest) (rw e at h) in
      ground (arith, some_digits-length s digits after f)
  | inr e ↦ ground arith
]

read_sign-length : (s : Bytes) → length (read_sign s).1 ≤ length s
unfolding read_sign
read_sign-length [] = omega arith
read_sign-length (c ∷ s) = ground arith

read_exponent-length : (s : Bytes) → Within (length s) (read_exponent s)
unfolding read_exponent
read_exponent-length [] ds rest h = ground arith
read_exponent-length (c ∷ s) ds rest h = elim (Bool-cases (c == b'e' || c == b'E')) [
  | inl e ↦
      let ((digits, after), f, g) =
        bind-eq-some (some_digits (read_sign s).1) _ (ds, rest) (rw e at h) in
      ground (arith, read_sign-length s, some_digits-length (read_sign s).1 digits after f)
  | inr e ↦ ground arith
]

read_number-length : (s ds rest : Bytes) → read_number s ≡ some (ds, rest) → length rest < length s
unfolding read_number
read_number-length [] ds rest h = absurd (cc)
read_number-length (c ∷ s) ds rest h =
    let start = if c == b'-' then s else c ∷ s in
    let bound : length start ≤ suc (length s) = ground arith in
    let ((whole, s1), f1, g1) = bind-eq-some (read_whole start) _ (ds, rest) h in
    let ((fraction, s2), f2, g2) = bind-eq-some (read_fraction s1) _ (ds, rest) g1 in
    let ((exponent, s3), f3, g3) = bind-eq-some (read_exponent s2) _ (ds, rest) g2 in
    ground (
      arith,
      bound,
      read_whole-length start whole s1 f1,
      read_fraction-length s1 fraction s2 f2,
      read_exponent-length s2 exponent s3 f3,
    )

pub read_scalar-length :
    (s : Bytes) (v : Value) (rest : Bytes) → read_scalar s ≡ some (v, rest) → length rest < length s
unfolding read_scalar
read_scalar-length [] v rest h = absurd (unfold has_prefix lit read_number in cc)
read_scalar-length (c ∷ s) v rest h = elim (Bool-cases (has_prefix (lit "null") (c ∷ s))) [
  | inl e ↦ ground (arith, drop-length 3 s)
  | inr e ↦ elim (Bool-cases (has_prefix (lit "true") (c ∷ s))) [
    | inl f ↦ ground (arith, drop-length 3 s)
    | inr f ↦ elim (Bool-cases (has_prefix (lit "false") (c ∷ s))) [
      | inl g ↦ ground (arith, drop-length 4 s)
      | inr g ↦
          let ((digits, after), k, l) =
            bind-eq-some (read_number (c ∷ s)) _ (v, rest) (rw (e, f, g) at h) in
          ground (arith, read_number-length (c ∷ s) digits after k)
    ]
  ]
]
