-- ===== src/Client/Setup.antt =====
-- `New` of internal/core/client.go: a client is built from its options, without any request.
use lts_agent.Base.{ℕ, Bytes, ◌++◌, Option, none, some, lit, if◌then◌else◌, is_empty, Bool, false}
use lts_agent.Go.Errors.{text, Result, ok, err}
use lts_agent.Go.Action.{Action, pure, lift, wrapped, ◌>>=◌}
use lts_agent.Go.Numbers.{ℤ}
use lts_agent.Client.Net.{Url, Web, Request, Response}
use lts_agent.Client.Options.{Options, check_options}
use lts_agent.Client.{Client}

-- Package `crypto/x509` with its `CertPool`, and `os.ReadFile`. `system_cert_pool` may return a
-- nil pool, and `append_certs` is `AppendCertsFromPEM`: the pool after it, and whether it found a
-- certificate.
pub record Trust (W Pool : Type 0) : Type 0 where
  pub system_cert_pool : Action W (Option Pool)
  pub new_cert_pool : Pool
  pub append_certs : Pool → Bytes → Pool × Bool
  pub read_file : Bytes → Action W Bytes

-- What is set on `http.Client` and its transport.
pub record Transport (Pool : Type 0) : Type 0 where
  pub min_version : ℕ
  pub root_cas : Pool
  pub timeout : ℤ
  pub follows_redirects : Bool

-- `tls.VersionTLS12`.
abbrev pub version_tls12 : ℕ
version_tls12 = 0x0303

-- What is made of the pool after `AppendCertsFromPEM`.
unfoldable pub appended : {Pool : Type 0} → Bytes → Pool × Bool → Result Pool
appended path (pool, found) =
    if found
    then ok pool
    else err (text (lit "CA file " ++ (path ++ lit " contains no valid PEM certificates")))

module _ {W Pool : Type 0} (trust : Trust W Pool) where
  unfoldable pub base_pool : Option Pool → Pool
  base_pool none = trust.new_cert_pool
  base_pool (some pool) = pool

  -- The certificates of the file `path` on top of a pool.
  unfoldable pub add_ca_file : Bytes → Pool → Action W Pool
  unfolding appended
  add_ca_file path pool = do
    certificate ← wrapped (lit "read CA file " ++ (path ++ lit ": ")) (trust.read_file path)
    lift (appended path (trust.append_certs pool certificate))

  -- The part of `New` that loads certificates.
  unfoldable pub root_pool : Bytes → Action W Pool
  unfolding base_pool
  root_pool ca_file = do
    system ← wrapped (lit "load system certificate pool: ") trust.system_cert_pool
    let pool = base_pool system
    if is_empty ca_file then pure pool else add_ca_file ca_file pool

abbrev pub transport_of : {Pool : Type 0} → Options → Pool → Transport Pool
transport_of options pool = record {
  min_version = version_tls12;
  root_cas = pool;
  timeout = options.timeout;
  follows_redirects = false;
}

-- `send` is `http.Client.Do` of a client with the given transport; of `web` only the functions on
-- URLs and requests are used.
module _ {W Pool : Type 0} (web : Web W)
    (send : Transport Pool → Request → W → Result Response × W) where
  abbrev pub client_of : Options → Url → Pool → Client W
  client_of options base_url pool = record {
    base_url = base_url;
    web = record web { send = send (transport_of options pool) };
    user_agent = options.user_agent;
  }

  -- `New`.
  unfoldable pub new_client : Trust W Pool → Options → Action W (Client W)
  new_client trust options = do
    base_url ← lift (check_options web.parse_url options)
    pool ← root_pool trust options.ca_file
    pure (client_of options base_url pool)
