-- ===== src/Go/Json/Strings.antt =====
-- Reading back the text of a string of visible ASCII characters.
use lts_agent.Base.{
  ℕ, zero, suc, ◌≤◌, ◌<◌, ◌≡◌, refl, Bool, true, false, ◌||◌, Bytes, [], ◌∷◌, ◌++◌, some, all,
  arith, ltb, ◌==◌, length, Bool-cases, inl, inr, length-append,
}
use lts_agent.Go.Strings.Trim.{is_visible}
use lts_agent.Go.Utf8.{rune_length}
use lts_agent.Go.Json.Parse.{
  read_piece, read_escape, short_escape, read_string, read_fields, read_value, expect, skip_space,
}
use lts_agent.Go.Json.Value.{Fields, field, str}
use lts_agent.Go.Json.Encode.{escape_ascii, escape_from}

rune_length-ascii : (c : ℕ) (s : Bytes) → ltb c 0x80 ≡ true → rune_length (c ∷ s) ≡ 1
unfolding rune_length
rune_length-ascii c [] h = ground arith
rune_length-ascii c (b ∷ []) h = ground arith
rune_length-ascii c (b ∷ d ∷ []) h = ground arith
rune_length-ascii c (b ∷ d ∷ e ∷ s) h = ground arith

-- A character that JSON escapes.
abbrev is_escaped : ℕ → Bool
is_escaped c = c == b'"' || c == b'\\'

read_escape-escaped :
    (c : ℕ) (s : Bytes) → is_escaped c ≡ true → read_escape (c ∷ s) ≡ some (c ∷ [], s)
unfolding read_escape short_escape
read_escape-escaped c s h = ground arith

read_piece-escaped :
    (c : ℕ) (s : Bytes) → is_escaped c ≡ true → read_piece b'\\' (c ∷ s) ≡ some (c ∷ [], s)
unfolding read_piece
read_piece-escaped c s h = read_escape-escaped c s h

read_string-step :
    (fuel c : ℕ) (s piece after text rest : Bytes)
    → (c == b'"') ≡ false
    → read_piece c s ≡ some (piece, after)
    → read_string fuel after ≡ some (text, rest)
    → read_string (suc fuel) (c ∷ s) ≡ some (piece ++ text, rest)
unfolding read_string
read_string-step fuel c s piece after text rest e f g = rw (read_string, e, f, g) refl

read_piece-plain :
    (c : ℕ) (s : Bytes)
    → is_visible c ≡ true
    → is_escaped c ≡ false
    → read_piece c s ≡ some (c ∷ [], s)
unfolding read_piece
read_piece-plain c s v h = ground (arith, rune_length-ascii c s)

escape_ascii-escaped : (c : ℕ) → is_escaped c ≡ true → escape_ascii c ≡ b'\\' ∷ c ∷ []
unfolding escape_ascii
escape_ascii-escaped c h = ground arith

escape_ascii-plain : (c : ℕ) → is_visible c ≡ true → is_escaped c ≡ false → escape_ascii c ≡ c ∷ []
unfolding escape_ascii
escape_ascii-plain c v h = ground arith

escape_from-visible :
    (c : ℕ) (s : Bytes)
    → is_visible c ≡ true
    → escape_from 0 true (c ∷ s) ≡ escape_ascii c ++ escape_from 0 true s
unfolding escape_from
escape_from-visible c s v = ground arith

-- With more fuel than characters, a string is read up to its closing quote.
pub read_string-visible :
    (fuel : ℕ) (s rest : Bytes)
    → all is_visible s ≡ true
    → length s < fuel
    → read_string fuel (escape_from 0 true s ++ (b'"' ∷ rest)) ≡ some (s, rest)
unfolding read_string
read_string-visible zero s rest v h = absurd (omega arith)
read_string-visible (suc fuel) [] rest v h = unfold escape_from in refl
read_string-visible (suc fuel) (c ∷ s) rest v h =
    let behind = escape_from 0 true s ++ (b'"' ∷ rest) in
    let ih = read_string-visible fuel s rest (ground arith) (omega arith) in
    elim (Bool-cases (is_escaped c)) [
      | inl e ↦
          rw (escape_from-visible c s (ground arith), escape_ascii-escaped c e)
            (read_string-step fuel b'\\' (c ∷ behind) (c ∷ []) behind s rest refl
              (read_piece-escaped c behind e) ih)
      | inr e ↦
          rw (escape_from-visible c s (ground arith), escape_ascii-plain c (ground arith) e)
            (read_string-step fuel c behind (c ∷ []) behind s rest (ground arith)
              (read_piece-plain c behind (ground arith) e) ih)
    ]

escape_from-length :
    (s : Bytes) → all is_visible s ≡ true → length s ≤ length (escape_from 0 true s)
escape_from-length [] v = omega arith
escape_from-length (c ∷ s) v =
    let ih = escape_from-length s (ground arith) in
    elim (Bool-cases (is_escaped c)) [
      | inl e ↦ rw (escape_from-visible c s (ground arith), escape_ascii-escaped c e) (omega arith)
      | inr e ↦
          rw (escape_from-visible c s (ground arith), escape_ascii-plain c (ground arith) e)
            (omega arith)
    ]

-- The rest of a text is fuel enough for the string in front.
pub read_string-escaped :
    (s rest : Bytes) (v : all is_visible s ≡ true)
    → read_string
        (length (escape_from 0 true s ++ (b'"' ∷ rest)))
        (escape_from 0 true s ++ (b'"' ∷ rest))
      ≡ some (s, rest)
read_string-escaped s rest v =
    read_string-visible _ s rest v
      (omega (arith, escape_from-length s v, length-append (escape_from 0 true s) (b'"' ∷ rest)))

-- A field with a string as its value is read in front of further fields.
pub read_fields-string :
    (fuel : ℕ) (name text rest : Bytes) (fs : Fields) (after : Bytes)
    → all is_visible name ≡ true
    → all is_visible text ≡ true
    → read_fields (suc fuel) false rest ≡ some (fs, after)
    → read_fields (suc (suc fuel)) false (
        b','
        ∷ b'"'
        ∷ (escape_from 0 true name
            ++ (b'"' ∷ b':' ∷ b'"' ∷ (escape_from 0 true text ++ (b'"' ∷ rest)))))
      ≡ some (field name (str text) fs, after)
unfolding read_fields read_value expect skip_space
read_fields-string fuel name text rest fs after n t h =
    rw (read_fields, read_value, read_string-escaped name _ n, read_string-escaped text rest t, h)
      refl
