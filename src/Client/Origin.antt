-- ===== src/Client/Origin.antt =====
-- Where internal/core/client.go sends requests and credentials.
use lts_agent.Base.{◌≡◌, refl, true, Bytes, ◌∷◌, ◌++◌, arith, same, same_iff, lit, Option, inl, inr}
use lts_agent.Go.Errors.{Error, Result, ok, err, Result-cases, wrap_error, ◌>>=◌}
use lts_agent.Go.Action.{continue}
use lts_agent.Go.Json.Value.{Value}
use lts_agent.Go.Json.Decode.{decode_one, decode_one-value}
use lts_agent.Client.Net.{Url, Request}
use lts_agent.Client.Bearer.{IsBearer, validate_bearer_exact}
use lts_agent.Client.Bounds.{read_response-target}
use lts_agent.Client.{
  Client, into, resolve_endpoint, build_request, do_json_with_bearer, do_json_unchecked, send_built,
  exchange, validate_bearer, read_response, authorization, content_type,
}

-- A URL at the origin of the client.
pub record AtOrigin {W : Type 0} (c : Client W) (url : Url) : Type 0 where
  pub scheme : url.scheme ≡ c.base_url.scheme
  pub host : url.host ≡ c.base_url.host

module _ {W : Type 0} (c : Client W) where
  resolve_endpoint-tests :
      (raw : Bytes) (url : Url)
      → resolve_endpoint c raw ≡ ok url
      → (same url.scheme c.base_url.scheme ≡ true) × (same url.host c.base_url.host ≡ true)
  unfolding resolve_endpoint
  resolve_endpoint-tests raw url h = elim (Result-cases (c.web.parse_url raw)) [
    | inl (reference, e) ↦ ground arith
    | inr (e, f) ↦ absurd (ground arith)
  ]

  pub resolve_endpoint-AtOrigin :
      (raw : Bytes) (url : Url) → resolve_endpoint c raw ≡ ok url → AtOrigin c url
  resolve_endpoint-AtOrigin raw url h =
      let (s, t) = resolve_endpoint-tests raw url h in
      record {
        scheme = (same_iff url.scheme c.base_url.scheme).0 s;
        host = (same_iff url.host c.base_url.host).0 t;
      }

  -- A request to the client's origin whose only credentials are the bearer.
  pub record Addressed (method bearer : Bytes) (body : Option Value) (r : Request) : Type 0 where
    pub url : Url
    pub address_is : r.address ≡ c.web.url_string url
    pub method_is : r.method ≡ method
    pub at_origin : AtOrigin c url
    pub headers_are :
        r.headers
        ≡ (lit "Accept", lit "application/json")
          ∷ (lit "User-Agent", c.user_agent)
          ∷ (authorization bearer ++ content_type body)

  build_request-Addressed :
      (method endpoint bearer : Bytes) (body : Option Value) (r : Request)
      → build_request c method endpoint bearer body ≡ ok r
      → Addressed method bearer body r
  unfolding build_request
  build_request-Addressed method endpoint bearer body r h =
      elim (Result-cases (resolve_endpoint c endpoint)) [
        | inr (e, f) ↦ absurd (ground arith)
        | inl (url, e) ↦ record {
          url = url;
          address_is = ground arith;
          method_is = ground arith;
          at_origin = resolve_endpoint-AtOrigin endpoint url e;
          headers_are = ground arith;
        }
      ]

  module _ {A : Type 0} (method endpoint bearer : Bytes) (body : Option Value)
      (target : Bytes → Result A) (w : W) where
    -- The exchange sent nothing and failed, or sent one request, whose bearer is valid.
    pub data Sent : Result A × W → Type 0 where
      unsent : (e : Error) → Sent (err e, w)
      sent :
          (r : Request) (a : Result A)
          → IsBearer bearer
          → Addressed method bearer body r
          → Sent (a, (c.web.send r w).1)

    send_built-Sent :
        (built : Result Request)
        → IsBearer bearer
        → ((r : Request) → built ≡ ok r → Addressed method bearer body r)
        → Sent (send_built c built target w)
    unfolding send_built exchange
    send_built-Sent (err e) b h = unsent e
    send_built-Sent (ok r) b h =
        sent r
          (wrap_error (lit "perform Core request: ") (c.web.send r w).0 >>= read_response target) b
          (h r refl)

    guarded-Sent :
        (valid : Result (Unit {0}))
        → validate_bearer bearer ≡ valid
        → Sent (continue valid (λ _. do_json_unchecked c method endpoint bearer body target) w)
    unfolding do_json_unchecked continue
    guarded-Sent (err e) h = unsent e
    guarded-Sent (ok tt) h =
        send_built-Sent (build_request c method endpoint bearer body)
          ((validate_bearer_exact bearer).0 h) (build_request-Addressed method endpoint bearer body)

    -- `DoJSONWithBearer` sends at most one request. It is sent to the scheme and the host of the
    -- base URL, with the bearer as its only credentials, and only if the bearer is valid.
    pub do_json_with_bearer-Sent : Sent (do_json_with_bearer c method endpoint bearer body target w)
    unfolding do_json_with_bearer
    do_json_with_bearer-Sent = guarded-Sent (validate_bearer bearer) refl

    built-target :
        (built : Result Request) (a : A)
        → (send_built c built target w).0 ≡ ok a
        → (reply : Bytes) × (target reply ≡ ok a)
    unfolding send_built exchange
    built-target (err e) a h = cc
    built-target (ok r) a h = elim (Result-cases (c.web.send r w).0) [
      | inr (e, f) ↦ absurd (ground arith)
      | inl (response, f) ↦ read_response-target target response a (ground arith)
    ]

    -- What an exchange returns was made of a body by the target.
    continue-target :
        (valid : Result (Unit {0})) (a : A)
        → (continue valid (λ _. do_json_unchecked c method endpoint bearer body target) w).0 ≡ ok a
        → (reply : Bytes) × (target reply ≡ ok a)
    unfolding do_json_unchecked continue
    continue-target (err e) a h = cc
    continue-target (ok tt) a h = built-target (build_request c method endpoint bearer body) a h

    pub do_json_with_bearer-target :
        (a : A)
        → (do_json_with_bearer c method endpoint bearer body target w).0 ≡ ok a
        → (reply : Bytes) × (target reply ≡ ok a)
    unfolding do_json_with_bearer
    do_json_with_bearer-target = continue-target (validate_bearer bearer)

pub into-value :
    {A : Type 0} (decode : Value → Result A) (body : Bytes) (a : A)
    → into decode body ≡ ok a
    → (v : Value) × (decode v ≡ ok a)
into-value decode body a h = elim (Result-cases (decode_one decode body)) [
  | inr (e, f) ↦ absurd (ground arith)
  | inl (b, f) ↦ decode_one-value decode body a (ground arith)
]
