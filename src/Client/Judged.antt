-- ===== src/Client/Judged.antt =====
-- What internal/core/client.go makes of a response.
use lts_agent.Base.{
  Bool-cases, Option-cases, ℕ, zero, suc, ◌≤◌, ◌<◌, ◌≡◌, refl, ap, ◌||◌, Bytes, [], ◌∷◌, length,
  length-take, take, arith, leb, ltb, lit, none, some, ◌⊎◌, inl, inr,
}
use lts_agent.Go.Errors.{Error, Result, ok, err, wrap, http, too_large}
use lts_agent.Go.Strings.{trim_space}
use lts_agent.Go.Strings.Trim.{trim_space-length}
use lts_agent.Go.Utf8.{to_valid_utf8}
use lts_agent.Go.Utf8.Lengths.{to_valid_utf8-length}
use lts_agent.Client.Net.{Reader, Response}
use lts_agent.Client.Bounds.{outside, read_within-whole, read_within-broken, read_within-too_large}
use lts_agent.Client.{
  read_bounded, max_response_bytes, max_error_excerpt_bytes, read_response, error_excerpt,
}

-- The text in an error: it is made of the first 4 KiB of a body, with U+FFFD for what is not valid
-- UTF-8, and without white space around it.
pub record IsExcerpt (body excerpt : Bytes) : Type 0 where
  pub taken : excerpt ≡ trim_space (to_valid_utf8 (take 4096 body))
  pub short : length excerpt ≤ 12288

-- A body of at most 1 MiB, read up to its end without an error.
pub record IsWhole (body : Reader) : Type 0 where
  pub fits : length body.available ≤ 1048576
  pub complete : body.failure ≡ none

pub data IsJudged {A : Type 0} (target : Bytes → Result A) (response : Response)
    : Result A → Type 0 where
  too_long :
      1048576 < length response.body.available
      → IsJudged target response (err (wrap (lit "read Core response: ") too_large))
  broken :
      (e : Error)
      → length response.body.available ≤ 1048576
      → response.body.failure ≡ some e
      → IsJudged target response (err (wrap (lit "read Core response: ") e))
  refused :
      (excerpt : Bytes)
      → IsWhole response.body
      → (response.status < 200) ⊎ (300 ≤ response.status)
      → IsExcerpt response.body.available excerpt
      → IsJudged target response (err (http response.status excerpt))
  accepted :
      IsWhole response.body
      → 200 ≤ response.status
      → response.status < 300
      → IsJudged target response (target response.body.available)

take-empty : (n : ℕ) → take {A = ℕ} n [] ≡ []
take-empty zero = refl
take-empty (suc n) = refl

take-short : (n : ℕ) (s : Bytes) → length s ≤ n → take n s ≡ s
take-short n [] h = take-empty n
take-short zero (c ∷ s) h = absurd (omega (arith, h))
take-short (suc n) (c ∷ s) h = ap (λ t. c ∷ t) (take-short n s (omega (arith, h)))

error_excerpt-taken :
    (body : Bytes) → error_excerpt body ≡ trim_space (to_valid_utf8 (take 4096 body))
unfolding error_excerpt
error_excerpt-taken body = elim (Bool-cases (ltb max_error_excerpt_bytes (length body))) [
  | inl long ↦ rw long refl
  | inr short ↦ rw (short, take-short 4096 body (ground arith)) refl
]

excerpt-length : (s : Bytes) → length (trim_space (to_valid_utf8 (take 4096 s))) ≤ 12288
excerpt-length s = omega (
  arith,
  trim_space-length (to_valid_utf8 (take 4096 s)),
  to_valid_utf8-length (take 4096 s),
  length-take 4096 s,
)

error_excerpt-IsExcerpt : (body : Bytes) → IsExcerpt body (error_excerpt body)
error_excerpt-IsExcerpt body = record {
  taken = error_excerpt-taken body;
  short = rw (error_excerpt-taken body) (excerpt-length body);
}

module _ {A : Type 0} (target : Bytes → Result A) (response : Response) where
  whole-IsJudged :
      IsWhole response.body
      → read_bounded response.body ≡ ok response.body.available
      → IsJudged target response (read_response target response)
  unfolding read_response
  whole-IsJudged whole read =
      elim (Bool-cases (ltb response.status 200 || leb 300 response.status)) [
        | inl bad ↦
            rw (read, bad)
              (refused _ whole (outside response.status bad) (error_excerpt-IsExcerpt _))
        | inr good ↦ rw (read, good) (accepted whole (ground arith) (ground arith))
      ]

  -- Every response is judged: a body of more than 1 MiB is refused, whatever its status; one that
  -- cannot be read fails with the cause; and the rest is judged by the status, where within 2xx the
  -- target is made of the whole body, and outside the result is an HTTP error with the status and an
  -- excerpt of at most 12 KiB, made of the first 4 KiB of the body.
  pub read_response-IsJudged : IsJudged target response (read_response target response)
  unfolding read_response read_bounded
  read_response-IsJudged =
      elim (Bool-cases (ltb max_response_bytes (length response.body.available))) [
        | inl long ↦
            rw (read_within-too_large max_response_bytes response.body (ground arith))
              (too_long (ground arith))
        | inr short ↦ elim (Option-cases response.body.failure) [
          | inl complete ↦
              whole-IsJudged (record { fits = ground arith; complete = complete })
                (read_within-whole max_response_bytes response.body (ground arith) complete)
          | inr (e, failed) ↦
              rw (read_within-broken max_response_bytes response.body e (ground arith) failed)
                (broken e (ground arith) failed)
        ]
      ]
