-- ===== src/Client.antt =====
-- internal/core/client.go: the HTTPS and JSON transport to LTS Core.
pub mod Net
pub mod Bearer
pub mod Bounds
pub mod Judged
pub mod Origin
pub mod BaseUrl
pub mod Options
pub mod Setup
pub mod Trusted
pub mod Configured
mod Tests
use lts_agent.Base.{
  ℕ, ◌+◌, ◌*◌, Bool, true, false, ◌&&◌, ◌||◌, not, Bytes, List, [], ◌∷◌, ◌++◌, Option, none, some,
  lit, same, ltb, leb, ◌==◌, if◌then◌else◌, within, length, take, is_empty, all, contains,
}
use lts_agent.Go.Errors.{
  Error, text, http, too_large, Result, ok, err, require, wrap_error, ◌>>=◌, ◌>>◌,
}
use lts_agent.Go.Action.{continue}
use lts_agent.Go.Numbers.{show_nat}
use lts_agent.Go.Strings.{has_prefix, split, trim_space}
use lts_agent.Go.Utf8.{to_valid_utf8}
use lts_agent.Go.Json.Value.{Value}
use lts_agent.Go.Json.Decode.{decode_one}
use lts_agent.Go.Json.Encode.{encode}
use lts_agent.Client.Net.{Url, Reader, Request, Response, Web, read_limited}

abbrev pub max_response_bytes : ℕ
max_response_bytes = 1024 * 1024

abbrev pub max_error_excerpt_bytes : ℕ
max_error_excerpt_bytes = 4 * 1024

abbrev pub max_bearer_bytes : ℕ
max_bearer_bytes = 8 * 1024

pub record Client (W : Type 0) : Type 0 where
  pub base_url : Url
  pub web : Web W
  pub user_agent : Bytes

-- Visible ASCII without the space.
abbrev pub is_visible : ℕ → Bool
is_visible c = within 0x21 0x7E c

unfoldable pub validate_bearer : Bytes → Result (Unit {0})
validate_bearer token =
    if is_empty token
    then err (text (lit "bearer token must not be empty"))
    else if ltb max_bearer_bytes (length token)
    then err
        (text (lit "bearer token exceeds " ++ (show_nat max_bearer_bytes ++ lit "-byte limit")))
    else require (all is_visible token) (text (lit "bearer token contains invalid characters"))

-- `!strings.HasSuffix(path, "/")`.
pub ends_with_slash : Bytes → Bool
ends_with_slash [] = false
ends_with_slash (c ∷ s) = if is_empty s then c == b'/' else ends_with_slash s

-- `parse_url` is `url.Parse`.
unfoldable pub parse_base_url : (Bytes → Result Url) → Bytes → Result Url
unfolding ends_with_slash
parse_base_url parse_url raw = do
  parsed ← wrap_error (lit "parse Core base URL: ") (parse_url raw)
  require (same parsed.scheme (lit "https")) (text (lit "Core base URL must use https"))
  require (not (is_empty parsed.host)) (text (lit "Core base URL must include a host"))
  require (not parsed.has_user) (text (lit "Core base URL must not include credentials"))
  require (is_empty parsed.raw_query) (text (lit "Core base URL must not include a query"))
  require (is_empty parsed.fragment) (text (lit "Core base URL must not include a fragment"))
  ok (
      if ends_with_slash parsed.path
      then parsed
      else record parsed { path = parsed.path ++ lit "/" })

abbrev dot_dot : Bytes
dot_dot = lit ".."

module _ {W : Type 0} (c : Client W) where
  unfoldable pub resolve_endpoint : Bytes → Result Url
  resolve_endpoint raw = do
    require (not (is_empty raw)) (text (lit "Core endpoint must not be empty"))
    require (not (has_prefix (lit "/") raw))
        (text (lit "Core endpoint must be relative and must not begin with a slash"))
    reference ← wrap_error (lit "parse Core endpoint: ") (c.web.parse_url raw)
    require (is_empty reference.scheme && (is_empty reference.host && not reference.has_user))
        (text (lit "Core endpoint must not override the configured origin"))
    require (is_empty reference.fragment) (text (lit "Core endpoint must not include a fragment"))
    require (not (contains dot_dot (split b'/' reference.path)))
        (text (lit "Core endpoint must not contain path traversal"))
    let resolved = c.web.resolve_reference c.base_url reference
    require (same resolved.scheme c.base_url.scheme && same resolved.host c.base_url.host)
        (text (lit "Core endpoint resolved outside the configured origin"))
    ok resolved

-- `readBounded`, at any limit.
unfoldable pub read_within : ℕ → Reader → Result Bytes
read_within limit reader = do
  received ← read_limited (limit + 1) reader
  if ltb limit (length received) then err too_large else ok received

unfoldable pub read_bounded : Reader → Result Bytes
unfolding read_within
read_bounded = read_within max_response_bytes

-- `errorExcerpt`.
unfoldable pub error_excerpt : Bytes → Bytes
error_excerpt body = trim_space (
    to_valid_utf8 (
      if ltb max_error_excerpt_bytes (length body)
      then take max_error_excerpt_bytes body
      else body))

-- The last argument of `doJSON`: what is made of the body of a successful response. `no_target`
-- is a nil target.
abbrev pub no_target : Bytes → Result (Unit {0})
no_target body = ok tt

abbrev pub into : {A : Type 0} → (Value → Result A) → Bytes → Result A
into decode body = wrap_error (lit "decode Core response JSON: ") (decode_one decode body)

-- `doJSON` behind the exchange.
unfoldable pub read_response : {A : Type 0} → (Bytes → Result A) → Response → Result A
read_response target response = do
  body ← wrap_error (lit "read Core response: ") (read_bounded response.body)
  if ltb response.status 200 || leb 300 response.status
      then err (http response.status (error_excerpt body))
      else target body

-- The headers that depend on the bearer and on the request body.
abbrev pub authorization : Bytes → List (Bytes × Bytes)
authorization bearer =
    if is_empty bearer then [] else (lit "Authorization", lit "Bearer " ++ bearer) ∷ []

abbrev pub content_type : Option Value → List (Bytes × Bytes)
content_type none = []
content_type (some v) = (lit "Content-Type", lit "application/json") ∷ []

unfoldable pub request_headers : Bytes → Bytes → Option Value → List (Bytes × Bytes)
request_headers user_agent bearer request_body =
    (lit "Accept", lit "application/json")
    ∷ (lit "User-Agent", user_agent)
    ∷ (authorization bearer ++ content_type request_body)

module _ {W : Type 0} (c : Client W) where
  -- `doJSON` up to the exchange: the request that is sent.
  unfoldable pub build_request : Bytes → Bytes → Bytes → Option Value → Result Request
  unfolding request_headers
  build_request method relative_endpoint bearer request_body = do
    endpoint ← resolve_endpoint c relative_endpoint
    let address = c.web.url_string endpoint
    wrap_error (lit "create Core request: ") (c.web.check_request method address)
    ok (record {
      method = method;
      address = address;
      headers = request_headers c.user_agent bearer request_body;
      body = elim request_body [ none ↦ none | some v ↦ some (encode v) ];
    })

  -- `doJSON` from the exchange on.
  unfoldable pub exchange : {A : Type 0} → Request → (Bytes → Result A) → W → Result A × W
  exchange request target w =
      let (reply, w') = c.web.send request w in
      (wrap_error (lit "perform Core request: ") reply >>= read_response target, w')

  unfoldable pub send_built : {A : Type 0} → Result Request → (Bytes → Result A) → W → Result A × W
  send_built (err e) target w = (err e, w)
  send_built (ok request) target w = exchange request target w

  unfoldable pub do_json_unchecked :
      {A : Type 0} → Bytes → Bytes → Bytes → Option Value → (Bytes → Result A) → W → Result A × W
  unfolding send_built exchange
  do_json_unchecked method relative_endpoint bearer request_body target =
      send_built (build_request method relative_endpoint bearer request_body) target

  pub do_json : {A : Type 0} → Bytes → Bytes → Option Value → (Bytes → Result A) → W → Result A × W
  do_json method relative_endpoint = do_json_unchecked method relative_endpoint []

  unfoldable pub do_json_with_bearer :
      {A : Type 0} → Bytes → Bytes → Bytes → Option Value → (Bytes → Result A) → W → Result A × W
  do_json_with_bearer method relative_endpoint bearer request_body target =
      continue (validate_bearer bearer)
        (λ _. do_json_unchecked method relative_endpoint bearer request_body target)
