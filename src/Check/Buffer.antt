-- ===== src/Check/Buffer.antt =====
-- `limitedBuffer` of internal/check/check.go: the output of a script, bounded in memory.
use lts_agent.Base.{
  ℕ, zero, suc, ◌-◌, ◌≤◌, ◌≡◌, refl, sym, ap, ◌∙◌, Bool, true, false, Bytes, List, [], ◌∷◌, ◌++◌,
  length, take, leb, ltb, arith, if◌then◌else◌, length-take, length-append, append-nil,
  append_assoc,
}
use lts_agent.Go.Strings.{trim_space}
use lts_agent.Go.Utf8.{to_valid_utf8}

pub record LimitedBuffer : Type 0 where
  pub contents : Bytes
  pub limit : ℕ
  pub truncated : Bool

unfoldable pub new_limited_buffer : ℕ → LimitedBuffer
new_limited_buffer limit = record { contents = []; limit = limit; truncated = false }

-- `Write`: the new buffer, and the number of bytes that it reports as written.
unfoldable pub write : LimitedBuffer → Bytes → LimitedBuffer × ℕ
write b chunk =
    let written = length chunk in
    let remaining = b.limit - length b.contents in
    if leb remaining 0
    then ((if ltb 0 written then record b { truncated = true } else b), written)
    else if ltb remaining (length chunk)
    then (record b { contents = b.contents ++ take remaining chunk; truncated = true }, written)
    else (record b { contents = b.contents ++ chunk }, written)

-- One write after another, as the process makes them.
unfoldable pub write_all : LimitedBuffer → List Bytes → LimitedBuffer
write_all b [] = b
write_all b (chunk ∷ chunks) = write_all (write b chunk).0 chunks

-- `String`.
unfoldable pub buffer_text : LimitedBuffer → Bytes
buffer_text b = trim_space (to_valid_utf8 b.contents)

-- All that was written, in order.
abbrev pub joined : List Bytes → Bytes
joined [] = []
joined (chunk ∷ chunks) = chunk ++ joined chunks

take-all : (n : ℕ) (s : Bytes) → length s ≤ n → take n s ≡ s
take-all zero [] h = refl
take-all zero (c ∷ s) h = absurd (omega arith)
take-all (suc n) [] h = refl
take-all (suc n) (c ∷ s) h = ap (◌∷◌ c) (take-all n s (omega arith))

-- Taking from an append: from the first part, then from the second as far as room is left.
take-append : (n : ℕ) (s t : Bytes) → take n (s ++ t) ≡ take n s ++ take (n - length s) t
take-append zero s t = let e : 0 ≡ 0 - length s = omega arith in ap (λ k. take k t) e
take-append (suc n) [] t = let e : suc n ≡ suc n - 0 = omega arith in ap (λ k. take k t) e
take-append (suc n) (c ∷ s) t =
    let e : n - length s ≡ suc n - suc (length s) = omega arith in
    ap (◌∷◌ c) (take-append n s t ∙ ap (λ k. take n s ++ take k t) e)

-- The buffer after `s` has been written.
abbrev holding : ℕ → Bytes → LimitedBuffer
holding limit s = record {
  contents = take limit s;
  limit = limit;
  truncated = ltb limit (length s);
}

write-holding :
    (limit : ℕ) (s chunk : Bytes) → (write (holding limit s) chunk).0 ≡ holding limit (s ++ chunk)
unfolding write
write-holding limit s chunk = ground (
  arith,
  take-append limit s chunk,
  length-take limit s,
  length-append s chunk,
  take-all (limit - length s) chunk,
  append-nil (take limit s),
  length-take 0 chunk,
)

new-holding : (limit : ℕ) → new_limited_buffer limit ≡ holding limit []
unfolding new_limited_buffer
new-holding zero = refl
new-holding (suc limit) = ground arith

write_all-holding :
    (limit : ℕ) (s : Bytes) (chunks : List Bytes)
    → write_all (holding limit s) chunks ≡ holding limit (s ++ joined chunks)
unfolding write_all
write_all-holding limit s [] = ap (holding limit) (sym (append-nil s))
write_all-holding limit s (chunk ∷ chunks) =
    ap (λ b. write_all b chunks) (write-holding limit s chunk)
    ∙ write_all-holding limit (s ++ chunk) chunks
    ∙ ap (holding limit) (append_assoc s chunk (joined chunks))

-- However a process splits its output into writes, the buffer keeps the first `limit` bytes of
-- it, and is marked as truncated exactly when there were more; memory stays within the limit.
pub write_all_refines :
    (limit : ℕ) (chunks : List Bytes)
    → ((write_all (new_limited_buffer limit) chunks).contents ≡ take limit (joined chunks))
      × ((write_all (new_limited_buffer limit) chunks).truncated
          ≡ ltb limit (length (joined chunks)))
      × (length (write_all (new_limited_buffer limit) chunks).contents ≤ limit)
write_all_refines limit chunks =
    let e : write_all (new_limited_buffer limit) chunks ≡ holding limit (joined chunks) =
      ap (λ b. write_all b chunks) (new-holding limit) ∙ write_all-holding limit [] chunks in
    (
      ap (λ b. b.contents) e,
      ap (λ b. b.truncated) e,
      omega (
        arith,
        ap (λ (b : LimitedBuffer). length b.contents) e,
        length-take limit (joined chunks),
      ),
    )
