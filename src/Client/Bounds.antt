-- ===== src/Client/Bounds.antt =====
-- The bounds of internal/core/client.go on what is read from the network.
use lts_agent.Base.{
  ◌||◌, ℕ, ◌+◌, ◌≤◌, ◌<◌, ◌≡◌, true, Bytes, length, length-take, arith, leb, ltb, none, some, ◌⊎◌,
  inl, inr,
}
use lts_agent.Go.Errors.{Error, Result, ok, err, too_large, Result-cases}
use lts_agent.Client.Net.{Reader, Response, read_limited}
use lts_agent.Client.{read_within, read_bounded, max_response_bytes, read_response}

module _ (limit : ℕ) (reader : Reader) where
  read_within-ok :
      (body : Bytes)
      → read_within limit reader ≡ ok body
      → (body ≡ reader.available) × (length body ≤ limit) × (reader.failure ≡ none)
  unfolding read_within read_limited
  read_within-ok body h = ground (arith, length-take (limit + 1) reader.available)

  pub read_within-whole :
      length reader.available ≤ limit
      → reader.failure ≡ none
      → read_within limit reader ≡ ok reader.available
  unfolding read_within read_limited
  read_within-whole h k = ground arith

  pub read_within-broken :
      (e : Error)
      → length reader.available ≤ limit
      → reader.failure ≡ some e
      → read_within limit reader ≡ err e
  unfolding read_within read_limited
  read_within-broken e h k = ground arith

  pub read_within-too_large :
      limit < length reader.available → read_within limit reader ≡ err too_large
  unfolding read_within read_limited
  read_within-too_large h = ground (arith, length-take (limit + 1) reader.available)

-- A body is read whole or not at all: what `readBounded` returns is all that the reader yields
-- before its end, and at most 1 MiB; a longer body is refused, whatever comes behind the limit.
pub read_bounded_exact :
    (reader : Reader)
    → ((body : Bytes)
        → read_bounded reader ≡ ok body
        → (body ≡ reader.available) × (length body ≤ max_response_bytes) × (reader.failure ≡ none))
      × (max_response_bytes < length reader.available → read_bounded reader ≡ err too_large)
unfolding read_bounded
read_bounded_exact reader =
    (read_within-ok max_response_bytes reader, read_within-too_large max_response_bytes reader)

pub outside : (n : ℕ) → (ltb n 200 || leb 300 n) ≡ true → (n < 200) ⊎ (300 ≤ n)
outside n h = ground arith

-- What a successful response decodes to came out of its body.
pub read_response-target :
    {A : Type 0} (target : Bytes → Result A) (response : Response) (a : A)
    → read_response target response ≡ ok a
    → (body : Bytes) × (target body ≡ ok a)
unfolding read_response
read_response-target target response a h = elim (Result-cases (read_bounded response.body)) [
  | inl (body, e) ↦ (body, ground arith)
  | inr (e, f) ↦ absurd (ground arith)
]
