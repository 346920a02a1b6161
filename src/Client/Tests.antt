-- ===== src/Client/Tests.antt =====
-- Runs of internal/core/client.go against a small web, and instances of the theorems.
use lts_agent.Base.{
  ℕ, suc, ◌+◌, not, is_empty, some, ◌≡◌, refl, false, Bytes, [], ◌++◌, length, if◌then◌else◌, none,
  lit, ◌≤◌, same, contains,
}
use lts_agent.Go.Errors.{Result, ok, err, http}
use lts_agent.Go.Numbers.{pos, int_lt}
use lts_agent.Go.Action.{continue}
use lts_agent.Go.Strings.{has_prefix, trim_space, split, contains_any}
use lts_agent.Go.Utf8.{to_valid_utf8, rune_length}
use lts_agent.Client.Net.{Url, Reader, Web, Request, Response, read_limited}
use lts_agent.Client.{
  Client, validate_bearer, read_bounded, read_response, parse_base_url, no_target,
  do_json_with_bearer, error_excerpt, max_response_bytes, do_json_unchecked, send_built, exchange,
  build_request, resolve_endpoint, request_headers,
}
use lts_agent.Client.Bearer.{IsBearer, validate_bearer_exact}
use lts_agent.Client.Bounds.{read_bounded_exact}
use lts_agent.Client.Judged.{IsJudged, read_response-IsJudged}
use lts_agent.Client.Origin.{Sent, do_json_with_bearer-Sent}
use lts_agent.Client.Options.{Options, check_options}
use lts_agent.Client.Setup.{
  Trust, Transport, appended, base_pool, add_ca_file, root_pool, client_of, new_client,
}
use lts_agent.Client.Configured.{IsConfigured, new_client-IsConfigured}
use lts_agent.Client.BaseUrl.{IsBase, parse_base_url-IsBase}

abbrev url : Bytes → Bytes → Bytes → Url
url scheme host path = record {
  scheme = scheme;
  host = host;
  has_user = false;
  path = path;
  raw_query = [];
  fragment = [];
}

abbrev reader : Bytes → Reader
reader s = record { available = s; failure = none }

-- A web that counts the requests, knows one absolute URL, and answers 503 to everything.
abbrev web : Web ℕ
web = record {
  parse_url = λ raw.
      if same raw (lit "https://core/api")
      then ok (url (lit "https") (lit "core") (lit "/api"))
      else ok (url [] [] raw);
  resolve_reference = λ base reference. record base { path = base.path ++ reference.path };
  url_string = λ u. u.scheme ++ (lit "://" ++ (u.host ++ u.path));
  check_request = λ method address. ok tt;
  send = λ r n. (ok (record { status = 503; body = reader (lit " down ") }), suc n);
}

abbrev client : Client ℕ
client = record {
  base_url = url (lit "https") (lit "core") (lit "/api/");
  web = web;
  user_agent = lit "lts-agent/1";
}

validate_bearer_exact_example : IsBearer (lit "token")
unfolding validate_bearer lit
validate_bearer_exact_example = (validate_bearer_exact (lit "token")).0 refl

read_bounded_exact_example : length (lit "body") ≤ max_response_bytes
unfolding read_bounded read_limited lit
read_bounded_exact_example = ((read_bounded_exact (reader (lit "body"))).0 (lit "body") refl).1

abbrev down : Response
down = record { status = 503; body = reader (lit " down ") }

read_response-IsJudged_example : IsJudged no_target down (err (http 503 (lit "down")))
unfolding read_response read_bounded read_limited error_excerpt to_valid_utf8 trim_space rune_length
    lit
read_response-IsJudged_example = read_response-IsJudged no_target down

do_json_with_bearer-Sent_example :
    Sent client
      (lit "GET")
      (lit "v1/nodes")
      (lit "token")
      none
      no_target
      4
      (do_json_with_bearer client (lit "GET") (lit "v1/nodes") (lit "token") none no_target 4)
do_json_with_bearer-Sent_example =
    do_json_with_bearer-Sent client (lit "GET") (lit "v1/nodes") (lit "token") none no_target 4

parse_base_url-IsBase_example : IsBase (url (lit "https") (lit "core") (lit "/api/"))
unfolding parse_base_url same lit
parse_base_url-IsBase_example =
    parse_base_url-IsBase web.parse_url (lit "https://core/api")
      (url (lit "https") (lit "core") (lit "/api/")) refl

-- A whole exchange: one request, and the error for its status.
exchange-down :
    do_json_with_bearer client (lit "GET") (lit "v1/nodes") (lit "token") none no_target 4
    ≡ (err (http 503 (lit "down")), 5)
unfolding do_json_with_bearer continue validate_bearer do_json_unchecked send_built exchange
    build_request resolve_endpoint read_response read_bounded read_limited error_excerpt
    to_valid_utf8 trim_space split contains has_prefix rune_length request_headers lit same
exchange-down = refl

-- A pool that counts its certificates; a file of certificates has any contents.
abbrev trust : Trust ℕ ℕ
trust = record {
  system_cert_pool = λ n. (ok (some 3), n);
  new_cert_pool = 0;
  append_certs = λ pool pem. (suc pool, not (is_empty pem));
  read_file = λ path n. (ok path, n);
}

abbrev options : Options
options = record {
  base_url = lit "https://core/api";
  timeout = pos 5;
  ca_file = lit "/ca.pem";
  user_agent = lit "lts-agent/1";
}

abbrev send : Transport ℕ → Request → ℕ → Result Response × ℕ
send transport r n = (ok down, n + transport.root_cas)

new_client_run :
    (new_client web send trust options 0).0 ≡ ok (client_of web send options client.base_url 4)
unfolding new_client check_options parse_base_url root_pool base_pool add_ca_file appended continue
    int_lt trim_space contains_any lit same
new_client_run = refl

new_client-IsConfigured_example :
    IsConfigured web send trust options 0 (client_of web send options client.base_url 4)
new_client-IsConfigured_example =
    new_client-IsConfigured web send trust options 0 (client_of web send options client.base_url 4)
      new_client_run
