-- ===== src/Client/BaseUrl.antt =====
-- `parseBaseURL` of internal/core/client.go.
use lts_agent.Base.{
  ◌≡◌, ◌≢◌, refl, true, false, Bytes, [], ◌∷◌, ◌++◌, arith, same_iff, lit, inl, inr, is_empty,
}
use lts_agent.Go.Errors.{Result, ok, Result-cases}
use lts_agent.Client.Net.{Url}
use lts_agent.Client.{parse_base_url, ends_with_slash}

-- An accepted base URL is an HTTPS origin without credentials, query or fragment.
pub record IsBase (url : Url) : Type 0 where
  pub scheme : url.scheme ≡ lit "https"
  pub host : url.host ≢ []
  pub user : url.has_user ≡ false
  pub query : url.raw_query ≡ []
  pub fragment : url.fragment ≡ []
  pub slash : ends_with_slash url.path ≡ true

ends_with_slash-append : (s : Bytes) → ends_with_slash (s ++ lit "/") ≡ true
unfolding ends_with_slash lit
ends_with_slash-append [] = refl
ends_with_slash-append (c ∷ []) = refl
ends_with_slash-append (c ∷ d ∷ s) = ends_with_slash-append (d ∷ s)

is_empty-eq : (s : Bytes) → is_empty s ≡ true → s ≡ []
is_empty-eq [] h = refl
is_empty-eq (c ∷ s) h = cc

-- `parseBaseURL` returns only such URLs, with a path that ends in a slash.
pub parse_base_url-IsBase :
    (parse_url : Bytes → Result Url) (raw : Bytes) (url : Url)
    → parse_base_url parse_url raw ≡ ok url
    → IsBase url
unfolding parse_base_url
parse_base_url-IsBase parse_url raw url h = elim (Result-cases (parse_url raw)) [
  | inr (e, f) ↦ absurd (ground arith)
  | inl (parsed, e) ↦ record {
    scheme = ground (arith, same_iff parsed.scheme (lit "https"));
    host = λ n. ground (arith, n);
    user = ground arith;
    query = is_empty-eq url.raw_query (ground arith);
    fragment = is_empty-eq url.fragment (ground arith);
    slash = ground (arith, ends_with_slash-append parsed.path);
  }
]
