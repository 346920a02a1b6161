-- ===== src/Main/Startup.antt =====
-- Building the client of cmd/lts-agent/main.go from a loaded configuration.
use lts_agent.Base.{ℕ, ◌≡◌, refl, true, false, Bytes, ◌++◌, lit, arith, is_empty}
use lts_agent.Go.Errors.{Error, Result, ok, err}
use lts_agent.Go.Action.{continue-fails}
use lts_agent.Go.Numbers.{ℤ, pos, int_lt}
use lts_agent.Go.Strings.{trim_space, contains_any}
use lts_agent.Client.Net.{Url}
use lts_agent.Client.Options.{check_options}
use lts_agent.Client.Configured.{new_client-IsTrustError}
use lts_agent.Client.Trusted.{IsTrustError}
use lts_agent.Config.{load, default_path, Config}
use lts_agent.Config.Sound.{InRange, IsValid, load-IsParsed, parse_base_url-IsValid}
use lts_agent.Agent.{version}
use lts_agent.Main.{Outside, seconds, client_options, core_synchronizer, application}

seconds-positive : (z : ℤ) (high : ℕ) → InRange 1 high z → int_lt (pos 0) (seconds z) ≡ true
unfolding int_lt
seconds-positive z high (n, e, h, k) = rw e (ground arith)

-- The user agent of the program.
user_agent-accepted :
    (is_empty (trim_space (lit "lts-agent/" ++ version)) ≡ false)
    × (contains_any (lit "lts-agent/" ++ version) (lit "\r\n") ≡ false)
unfolding trim_space contains_any lit
user_agent-accepted = (refl, refl)

check_options-accepts :
    (parse_url : Bytes → Result Url) (c : Config)
    → IsValid parse_url c
    → c.core.enabled ≡ true
    → (url : Url) × (check_options parse_url (client_options c) ≡ ok url)
unfolding check_options
check_options-accepts parse_url c v on =
    let (url, e) = parse_base_url-IsValid parse_url c v (v.needs_url on) in
    let positive = seconds-positive c.core.request_timeout_seconds 120 v.request_timeout in
    (url, rw (e, positive, user_agent-accepted.0, user_agent-accepted.1) refl)

module _ {W Pool : Type 0} (outside : Outside W Pool) where
  core_synchronizer-IsTrustError :
      (c : Config) (w : W) (e : Error)
      → IsValid outside.web.parse_url c
      → c.core.enabled ≡ true
      → (core_synchronizer outside c w).0 ≡ err e
      → IsTrustError outside.trust w c.core.ca_file e
  unfolding core_synchronizer
  core_synchronizer-IsTrustError c w e v on =
      let (url, accepted) = check_options-accepts outside.web.parse_url c v on in
      continue-fails (IsTrustError outside.trust w c.core.ca_file) _ _ _
        (λ e h.
          new_client-IsTrustError outside.web outside.send outside.trust (client_options c) w url e
            accepted h)
        (λ client _ e h. absurd (cc)) e

  -- With every configuration that is loaded with Core enabled, the synchronizer can be built
  -- unless certificates cannot be loaded: the pool of the system cannot, or the CA file is set and
  -- cannot be read, or nothing that was read from it is a certificate.
  pub load-IsTrustError :
      (w w' : W) (c : Config) (e : Error)
      → ((application outside).load_config w).0.0 ≡ ok c
      → c.core.enabled ≡ true
      → ((application outside).new_core_synchronizer c w').0 ≡ err e
      → IsTrustError outside.trust w' c.core.ca_file e
  unfolding load
  load-IsTrustError w w' c e loaded =
      core_synchronizer-IsTrustError c w' e
        (load-IsParsed outside.web.parse_url default_path (outside.os_read_file w) c
          loaded).is_valid
