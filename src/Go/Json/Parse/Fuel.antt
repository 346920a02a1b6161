-- ===== src/Go/Json/Parse/Fuel.antt =====
-- The fuel of the JSON reader: what it reads with any fuel, it reads with the fuel that it is given.
use lts_agent.Base.{
  ℕ, zero, suc, ◌≤◌, ◌<◌, ◌+◌, ◌≡◌, ap, Bool, true, false, Bytes, [], ◌∷◌, Option, some, arith,
  length, Bool-cases, Option-cases, inl, inr, ◌==◌, if◌then◌else◌,
}
use lts_agent.Go.Json.Value.{Value, nil, end}
use lts_agent.Go.Json.Parse.Lengths.{
  bind-eq-some, read_piece-length, List-cases, skip_space-length, expect-length, read_string-length,
  read_scalar-length,
}
use lts_agent.Go.Json.Parse.{
  skip_space, read_piece, read_string, read_scalar, expect, read_value, read_items, read_fields,
  first_value,
}

-- A reader that succeeds with the fuel `f` takes at least one byte, and succeeds alike with any
-- fuel that is at least the number of bytes that it takes.
abbrev Reads : {A : Type 0} → (ℕ → Bytes → Option (A × Bytes)) → ℕ → Type 0
Reads {A} read f =
    (s : Bytes) (a : A) (rest : Bytes)
    → read f s ≡ some (a, rest)
    → (length rest < length s) × ((g : ℕ) → length s ≤ g + length rest → read g s ≡ some (a, rest))

-- A value that starts with `c`; the four kinds of values.
module _ (f c : ℕ) (s t : Bytes) (v : Value) (rest : Bytes) (e : skip_space s ≡ c ∷ t)
    (h : read_value (suc f) s ≡ some (v, rest)) where
  value-string :
      (c == b'"') ≡ true
      → (length rest < length s) × ((g : ℕ) → read_value (suc g) s ≡ some (v, rest))
  unfolding read_value
  value-string q =
      let h' = rw (read_value, e, q) at h in
      let ((text, after), k, l) = bind-eq-some (read_string (length t) t) _ (v, rest) h' in
      let shorter = read_string-length (length t) t text after k in
      (
        ground (arith, shorter, skip_space-length s, ap length e, l),
        λ g. rw (read_value, e, q, k) l,
      )

  value-scalar :
      (c == b'"') ≡ false
      → (c == b'[') ≡ false
      → (c == b'{') ≡ false
      → (length rest < length s) × ((g : ℕ) → read_value (suc g) s ≡ some (v, rest))
  unfolding read_value
  value-scalar q r u =
      let h' : read_scalar (c ∷ t) ≡ some (v, rest) = rw (read_value, e, q, r, u) at h in
      let shorter = read_scalar-length (c ∷ t) v rest h' in
      (
        ground (arith, shorter, skip_space-length s, ap length e),
        λ g. rw (read_value, e, q, r, u) h',
      )

  value-items :
      (c == b'"') ≡ false
      → (c == b'[') ≡ true
      → Reads (λ g. read_items g true) f
      → (length rest < length s)
        × ((g : ℕ) → length s ≤ suc g + length rest → read_value (suc g) s ≡ some (v, rest))
  unfolding read_value
  value-items q r reads =
      let h' = rw (read_value, e, q, r) at h in
      let ((items, after), k, l) = bind-eq-some (read_items f true t) _ (v, rest) h' in
      let (shorter, again) = reads t items after k in
      (
        ground (arith, shorter, skip_space-length s, ap length e, l),
        λ g enough.
            rw
              (
                read_value,
                e,
                q,
                r,
                again g (ground (arith, skip_space-length s, ap length e, l, enough)),
              )
              l,
      )

  value-fields :
      (c == b'"') ≡ false
      → (c == b'[') ≡ false
      → (c == b'{') ≡ true
      → Reads (λ g. read_fields g true) f
      → (length rest < length s)
        × ((g : ℕ) → length s ≤ suc g + length rest → read_value (suc g) s ≡ some (v, rest))
  unfolding read_value
  value-fields q r u reads =
      let h' = rw (read_value, e, q, r, u) at h in
      let ((fields, after), k, l) = bind-eq-some (read_fields f true t) _ (v, rest) h' in
      let (shorter, again) = reads t fields after k in
      (
        ground (arith, shorter, skip_space-length s, ap length e, l),
        λ g enough.
            rw
              (
                read_value,
                e,
                q,
                r,
                u,
                again g (ground (arith, skip_space-length s, ap length e, l, enough)),
              )
              l,
      )

-- Fuel that is enough is not zero.
with_fuel :
    {A : Type 0} (read : ℕ → Bytes → Option (A × Bytes)) (s : Bytes) (a : A) (rest : Bytes)
    → (length rest < length s)
      × ((g : ℕ) → length s ≤ suc g + length rest → read (suc g) s ≡ some (a, rest))
    → (length rest < length s) × ((g : ℕ) → length s ≤ g + length rest → read g s ≡ some (a, rest))
with_fuel {A} read s a rest (shorter, again) = (
  shorter,
  λ g. elim g as (λ n. length s ≤ n + length rest → read n s ≡ some (a, rest)) [
    | zero ↦ λ h. absurd (omega (arith, shorter))
    | suc g' ↦ again g'
  ],
)

read_value-step :
    (f : ℕ)
    → Reads (λ g. read_items g true) f
    → Reads (λ g. read_fields g true) f
    → Reads read_value (suc f)
read_value-step f items fields s v rest h =
    with_fuel read_value s v rest (elim (List-cases (skip_space s)) [
      | inl e ↦ absurd (unfold read_value in cc (rw (read_value, e) at h))
      | inr (c, t, e) ↦ elim (Bool-cases (c == b'"')) [
        | inl q ↦
            let (shorter, again) = value-string f c s t v rest e h q in (shorter, λ g _. again g)
        | inr q ↦ elim (Bool-cases (c == b'[')) [
          | inl r ↦ value-items f c s t v rest e h q r items
          | inr r ↦ elim (Bool-cases (c == b'{')) [
            | inl u ↦ value-fields f c s t v rest e h q r u fields
            | inr u ↦
                let (shorter, again) = value-scalar f c s t v rest e h q r u in
                (shorter, λ g _. again g)
          ]
        ]
      ]
    ])

-- Where an item or a field starts, behind the comma that separates it from the one before.
start_of-length :
    (first : Bool) (s start : Bytes)
    → (if first then some s else expect b',' s) ≡ some start
    → length start ≤ length s
start_of-length true s start h = ground arith
start_of-length false s start h = ground (arith, expect-length b',' s start)

read_items-step :
    (f : ℕ) (first : Bool)
    → Reads read_value f
    → Reads (λ g. read_items g false) f
    → Reads (λ g. read_items g first) (suc f)
unfolding read_items
read_items-step f first values items s vs rest h =
    with_fuel (λ g. read_items g first) s vs rest
      (elim (Option-cases (expect b']' s)) [
        | inr (after, e) ↦
            let l : some (nil, after) ≡ some (vs, rest) = rw (read_items, e) at h in
            (ground (arith, expect-length b']' s after e, l), λ g _. rw (read_items, e) l)
        | inl e ↦
            let h' = rw (read_items, e) at h in
            let (start, e0, h0) =
              bind-eq-some (if first then some s else expect b',' s) _ (vs, rest) h' in
            let ((v, after), e1, h1) = bind-eq-some (read_value f start) _ (vs, rest) h0 in
            let ((more, last), e2, l) = bind-eq-some (read_items f false after) _ (vs, rest) h1 in
            let (shorter1, again1) = values start v after e1 in
            let (shorter2, again2) = items after more last e2 in
            let bound = start_of-length first s start e0 in
            (
              ground (arith, bound, shorter1, shorter2, l),
              λ g enough.
                  rw
                    (
                      read_items,
                      e,
                      e0,
                      again1 g (ground (arith, bound, shorter1, shorter2, l, enough)),
                      again2 g (ground (arith, bound, shorter1, shorter2, l, enough)),
                    )
                    l,
            )
      ])

read_fields-step :
    (f : ℕ) (first : Bool)
    → Reads read_value f
    → Reads (λ g. read_fields g false) f
    → Reads (λ g. read_fields g first) (suc f)
unfolding read_fields
read_fields-step f first values fields s vs rest h =
    with_fuel (λ g. read_fields g first) s vs rest
      (elim (Option-cases (expect b'}' s)) [
        | inr (after, e) ↦
            let l : some (end, after) ≡ some (vs, rest) = rw (read_fields, e) at h in
            (ground (arith, expect-length b'}' s after e, l), λ g _. rw (read_fields, e) l)
        | inl e ↦
            let h' = rw (read_fields, e) at h in
            let (start, e0, h0) =
              bind-eq-some (if first then some s else expect b',' s) _ (vs, rest) h' in
            let (quoted, e1, h1) = bind-eq-some (expect b'"' start) _ (vs, rest) h0 in
            let ((name, s1), e2, h2) =
              bind-eq-some (read_string (length quoted) quoted) _ (vs, rest) h1 in
            let (s2, e3, h3) = bind-eq-some (expect b':' s1) _ (vs, rest) h2 in
            let ((v, after), e4, h4) = bind-eq-some (read_value f s2) _ (vs, rest) h3 in
            let ((more, last), e5, l) = bind-eq-some (read_fields f false after) _ (vs, rest) h4 in
            let (shorter1, again1) = values s2 v after e4 in
            let (shorter2, again2) = fields after more last e5 in
            let bound : length s2 ≤ length s = omega (
              arith,
              start_of-length first s start e0,
              expect-length b'"' start quoted e1,
              read_string-length (length quoted) quoted name s1 e2,
              expect-length b':' s1 s2 e3,
            ) in
            (
              ground (arith, bound, shorter1, shorter2, l),
              λ g enough.
                  rw
                    (
                      read_fields,
                      e,
                      e0,
                      e1,
                      e2,
                      e3,
                      again1 g (ground (arith, bound, shorter1, shorter2, l, enough)),
                      again2 g (ground (arith, bound, shorter1, shorter2, l, enough)),
                    )
                    l,
            )
      ])

-- All three readers.
reads :
    (f : ℕ)
    → Reads read_value f
      × ((first : Bool) → Reads (λ g. read_items g first) f)
      × ((first : Bool) → Reads (λ g. read_fields g first) f)
unfolding read_value read_items read_fields
reads zero =
    (λ s v rest h. absurd (cc), λ first s v rest h. absurd (cc), λ first s v rest h. absurd (cc))
reads (suc f) =
    let (values, items, fields) = reads f in
    (
      read_value-step f (items true) (fields true),
      λ first. read_items-step f first values (items false),
      λ first. read_fields-step f first values (fields false),
    )

-- What is read with any fuel is the first value.
first_value-enough :
    (fuel : ℕ) (s : Bytes) (v : Value) (rest : Bytes)
    → read_value fuel s ≡ some (v, rest)
    → first_value s ≡ some (v, rest)
unfolding first_value
first_value-enough fuel s v rest h = ((reads fuel).0 s v rest h).1 (suc (length s)) (omega arith)

-- The same for the text of a string.
pub read_string-again :
    (f : ℕ) (s text rest : Bytes)
    → read_string f s ≡ some (text, rest)
    → (g : ℕ) → length s ≤ g + length rest
    → read_string g s ≡ some (text, rest)
unfolding read_string
read_string-again zero s text rest h g enough = absurd (cc)
read_string-again (suc f) [] text rest h g enough = absurd (cc)
read_string-again (suc f) (c ∷ s) text rest h zero enough =
    absurd (omega (arith, read_string-length (suc f) (c ∷ s) text rest h))
read_string-again (suc f) (c ∷ s) text rest h (suc g) enough = elim (Bool-cases (c == b'"')) [
  | inl e ↦ rw (read_string, e) (rw (read_string, e) at h)
  | inr e ↦
      let ((piece, after), k, h0) =
        bind-eq-some (read_piece c s) _ (text, rest) (rw (read_string, e) at h) in
      let ((more, last), e1, l) = bind-eq-some (read_string f after) _ (text, rest) h0 in
      rw
        (
          read_string,
          e,
          k,
          read_string-again f after more last e1 g
              (ground (arith, read_piece-length c s piece after k, l, enough)),
        )
        l
]
