-- ===== src/Client/Configured.antt =====
-- What `New` of internal/core/client.go returns.
use lts_agent.Base.{
  ◌≡◌, ◌≢◌, subst, refl, true, false, Bytes, [], ◌++◌, lit, arith, inl, inr, if◌then◌else◌,
}
use lts_agent.Go.Errors.{Error, Result, ok, err, Result-cases}
use lts_agent.Go.Action.{continue-ensures, continue-fails}
use lts_agent.Go.Numbers.{pos, int_lt}
use lts_agent.Go.Strings.{trim_space, contains_any}
use lts_agent.Client.Net.{Url, Web, Request, Response}
use lts_agent.Client.BaseUrl.{IsBase, parse_base_url-IsBase}
use lts_agent.Client.Options.{Options, check_options}
use lts_agent.Client.Setup.{Trust, Transport, transport_of, client_of, new_client}
use lts_agent.Client.Trusted.{
  IsRootPool, IsTrustError, root_pool-IsRootPool, root_pool-IsTrustError,
}
use lts_agent.Client.{Client, parse_base_url, ends_with_slash}

-- The base URL is what `url.Parse` makes of the text, with a slash behind its path if it had none.
pub record IsBaseOf (parse_url : Bytes → Result Url) (raw : Bytes) (url : Url) : Type 0 where
  pub parsed : Url
  pub parsed_is : parse_url raw ≡ ok parsed
  pub slashed : url ≡ (
      if ends_with_slash parsed.path
      then parsed
      else record parsed { path = parsed.path ++ lit "/" })

parse_base_url-IsBaseOf :
    (parse_url : Bytes → Result Url) (raw : Bytes) (url : Url)
    → parse_base_url parse_url raw ≡ ok url
    → IsBaseOf parse_url raw url
unfolding parse_base_url
parse_base_url-IsBaseOf parse_url raw url h = elim (Result-cases (parse_url raw)) [
  | inr (e, f) ↦ absurd (ground arith)
  | inl (parsed, e) ↦ record { parsed = parsed; parsed_is = e; slashed = ground arith }
]

-- Options that pass the tests, and the URL made of them.
pub record AreChecked (parse_url : Bytes → Result Url) (options : Options) (base_url : Url)
    : Type 0 where
  pub base : IsBase base_url
  pub base_of : IsBaseOf parse_url options.base_url base_url
  pub timeout : int_lt (pos 0) options.timeout ≡ true
  pub user_agent : trim_space options.user_agent ≢ []
  pub one_line : contains_any options.user_agent (lit "\r\n") ≡ false

check_options-AreChecked :
    (parse_url : Bytes → Result Url) (options : Options) (base_url : Url)
    → check_options parse_url options ≡ ok base_url
    → AreChecked parse_url options base_url
unfolding check_options
check_options-AreChecked parse_url options base_url h =
    elim (Result-cases (parse_base_url parse_url options.base_url)) [
      | inr (e, f) ↦ absurd (ground arith)
      | inl (parsed, f) ↦
          let g : parse_base_url parse_url options.base_url ≡ ok base_url = ground arith in
          record {
            base = parse_base_url-IsBase parse_url options.base_url base_url g;
            base_of = parse_base_url-IsBaseOf parse_url options.base_url base_url g;
            timeout = ground arith;
            user_agent = λ n. ground (arith, n);
            one_line = ground arith;
          }
    ]

module _ {W Pool : Type 0} (web : Web W) (send : Transport Pool → Request → W → Result Response × W)
    (trust : Trust W Pool) (options : Options) (w : W) where
  -- A client that was built from the options in the world `w`: it sends through TLS 1.2 or later
  -- with the timeout of the options, follows no redirect, and trusts the certificates that the
  -- options name.
  pub record IsConfigured (c : Client W) : Type 0 where
    pub checked : AreChecked web.parse_url options c.base_url
    pub user_agent : c.user_agent ≡ options.user_agent
    pub transport : Transport Pool
    pub tls : transport.min_version ≡ 0x0303
    pub timeout : transport.timeout ≡ options.timeout
    pub no_redirect : transport.follows_redirects ≡ false
    pub trusted : IsRootPool trust w options.ca_file transport.root_cas
    pub web_is : c.web ≡ record web { send = send transport }

  client_of-IsConfigured :
      (base_url : Url) (pool : Pool)
      → AreChecked web.parse_url options base_url
      → IsRootPool trust w options.ca_file pool
      → IsConfigured (client_of web send options base_url pool)
  client_of-IsConfigured base_url pool checked trusted = record {
    checked = checked;
    user_agent = refl;
    transport = transport_of options pool;
    tls = refl;
    timeout = refl;
    no_redirect = refl;
    trusted = trusted;
    web_is = refl;
  }

  -- A client that `New` returns has the base URL of its options, parsed, an HTTPS origin whose path
  -- ends in a slash, and their user agent, neither blank nor with a line break; and it sends through
  -- a transport that has their timeout, which is above zero, requires TLS 1.2, follows no redirect,
  -- and trusts the certificates of the system and those read from their CA file, if it is set, which
  -- then has one.
  pub new_client-IsConfigured :
      (c : Client W) → (new_client web send trust options w).0 ≡ ok c → IsConfigured c
  unfolding new_client
  new_client-IsConfigured = continue-ensures IsConfigured _ _ _ (λ base_url checked.
      continue-ensures IsConfigured _ _ _ (λ pool loaded c h.
        let same : client_of web send options base_url pool ≡ c = ground arith in
        subst IsConfigured same (
          client_of-IsConfigured base_url pool
            (check_options-AreChecked web.parse_url options base_url checked)
            (root_pool-IsRootPool trust w options.ca_file pool loaded))))

  -- With options that pass the tests, `New` fails only for the certificates.
  pub new_client-IsTrustError :
      (base_url : Url) (e : Error)
      → check_options web.parse_url options ≡ ok base_url
      → (new_client web send trust options w).0 ≡ err e
      → IsTrustError trust w options.ca_file e
  unfolding new_client
  new_client-IsTrustError base_url e h =
      continue-fails (IsTrustError trust w options.ca_file) _ _ _ (λ e f. absurd (cc))
        (λ url _.
          continue-fails (IsTrustError trust w options.ca_file) _ _ _
            (root_pool-IsTrustError trust w options.ca_file) (λ pool _ e f. absurd (cc)))
        e
