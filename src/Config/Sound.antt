-- ===== src/Config/Sound.antt =====
-- What internal/config/config.go accepts, and that the client of internal/core/client.go agrees.
use lts_agent.Base.{
  ◌==◌, ap, subst, if◌then◌else◌, ℕ, ◌≤◌, ◌≡◌, ◌≢◌, refl, true, false, ◌&&◌, ◌||◌, Bytes, [], ◌∷◌,
  ◌++◌, Option, none, some, lit, arith, same, is_empty, inl, inr, ◌⊎◌, Bool-cases,
}
use lts_agent.Go.Errors.{Result, ok, err, bind-eq-ok, Result-cases, is_not_exist, wrap_error-eq-ok}
use lts_agent.Go.Numbers.{ℤ, pos, negsuc, int_lt}
use lts_agent.Go.Strings.{has_prefix}
use lts_agent.Go.Json.Decode.{decode_one}
use lts_agent.Go.Json.Value.{Value}
use lts_agent.Client.Net.{Url}
use lts_agent.Client.{parse_base_url, ends_with_slash}
use lts_agent.Config.Wire.{Document, decode_document}
use lts_agent.Config.{
  Config, Core, defaults, default_core, default_checks, within_range, log_level, is_origin,
  validate, check_document, parse, loaded_from, load_with_dependencies, read_core, read_checks,
  read_logging,
}
use lts_agent.Go.Filepath.{is_abs}

-- An integer within bounds.
abbrev pub InRange : ℕ → ℕ → ℤ → Type 0
InRange low high z = (n : ℕ) × (z ≡ pos n) × (low ≤ n) × (n ≤ high)

-- A configuration that the agent runs with.
pub record IsValid (parse_url : Bytes → Result Url) (c : Config) : Type 0 where
  pub validation_path : is_abs c.checks.validation_path ≡ true
  pub health_path : is_abs c.checks.health_path ≡ true
  pub timeout : InRange 1 300 c.checks.timeout_seconds
  pub output : InRange 1024 1048576 c.checks.max_output_bytes
  pub known_level : (log_level c.log_level).1 ≡ none
  pub needs_url : c.core.enabled ≡ true → c.core.base_url ≢ []
  pub origin : c.core.base_url ≢ [] → is_origin (parse_url c.core.base_url) ≡ true
  pub ca_file : c.core.ca_file ≢ [] → is_abs c.core.ca_file ≡ true
  pub token_file : is_abs c.core.enrollment_token_file ≡ true
  pub state_file : is_abs c.core.state_file ≡ true
  pub request_timeout : InRange 1 120 c.core.request_timeout_seconds

within_range-InRange : (low high : ℕ) (z : ℤ) → within_range low high z ≡ true → InRange low high z
unfolding int_lt
within_range-InRange low high (pos n) h = (n, refl, ground arith, ground arith)
within_range-InRange low high (negsuc n) h = absurd (ground arith)

filled : (s : Bytes) → s ≢ [] → is_empty s ≡ false
filled [] h = absurd (h refl)
filled (c ∷ s) h = refl

module _ (parse_url : Bytes → Result Url) where
  validate-tests :
      (c : Config)
      → validate parse_url c ≡ ok tt
      → (is_abs c.checks.validation_path ≡ true)
        × (is_abs c.checks.health_path ≡ true)
        × (within_range 1 300 c.checks.timeout_seconds ≡ true)
        × (within_range 1024 1048576 c.checks.max_output_bytes ≡ true)
        × ((log_level c.log_level).1 ≡ none)
        × ((c.core.enabled && is_empty c.core.base_url) ≡ false)
        × ((is_empty c.core.base_url || is_origin (parse_url c.core.base_url)) ≡ true)
        × ((is_empty c.core.ca_file || is_abs c.core.ca_file) ≡ true)
        × (is_abs c.core.enrollment_token_file ≡ true)
        × (is_abs c.core.state_file ≡ true)
        × (within_range 1 120 c.core.request_timeout_seconds ≡ true)
  unfolding validate
  validate-tests c h = ground arith

  validate-IsValid : (c : Config) → validate parse_url c ≡ ok tt → IsValid parse_url c
  validate-IsValid c h =
      let (validation, health, timeout, output, level, url, origin, ca, token, state, request) =
        validate-tests c h in
      record {
        validation_path = validation;
        health_path = health;
        timeout = within_range-InRange 1 300 c.checks.timeout_seconds timeout;
        output = within_range-InRange 1024 1048576 c.checks.max_output_bytes output;
        known_level = level;
        needs_url = λ enabled empty. absurd (ground (arith, ap is_empty empty));
        origin = λ n. ground (arith, filled c.core.base_url n);
        ca_file = λ n. ground (arith, filled c.core.ca_file n);
        token_file = token;
        state_file = state;
        request_timeout = within_range-InRange 1 120 c.core.request_timeout_seconds request;
      }

  -- The defaults pass the validation that a file has to pass.
  validate-defaults : validate parse_url defaults ≡ ok tt
  unfolding validate is_abs log_level has_prefix same int_lt lit
  validate-defaults = refl

  check_document-parts :
      (raw : Document) (c : Config)
      → check_document parse_url raw ≡ ok c
      → (validate parse_url c ≡ ok tt)
        × ((int_lt c.schema_version (pos 1) || int_lt (pos 2) c.schema_version) ≡ false)
        × (read_core c.schema_version raw.core default_core ≡ ok c.core)
        × (read_checks raw.checks default_checks ≡ ok c.checks)
        × (read_logging raw.logging (lit "info") ≡ ok c.log_level)
  unfolding check_document
  check_document-parts raw c h = ground arith

  version-cases :
      (z : ℤ) → (int_lt z (pos 1) || int_lt (pos 2) z) ≡ false → (z ≡ pos 1) ⊎ (z ≡ pos 2)
  unfolding int_lt
  version-cases (pos n) h = elim (Bool-cases (n == 1)) [
    | inl e ↦ inl (ground arith)
    | inr e ↦ inr (ground arith)
  ]
  version-cases (negsuc n) h = absurd (ground arith)

  read_core-version :
      (raw : Option Value) (target core : Core)
      → read_core (pos 1) raw target ≡ ok core
      → core ≡ target
  unfolding read_core int_lt
  read_core-version none target core h = ground arith
  read_core-version (some v) target core h = absurd (ground arith)

  -- A configuration that `parse` makes of a file.
  pub record IsParsed (c : Config) : Type 0 where
    pub is_valid : IsValid parse_url c
    pub version : (c.schema_version ≡ pos 1) ⊎ (c.schema_version ≡ pos 2)
    -- A file of version 1 has no section for Core.
    pub offline : c.schema_version ≡ pos 1 → c.core ≡ default_core

  parse-IsParsed : (contents : Bytes) (c : Config) → parse parse_url contents ≡ ok c → IsParsed c
  unfolding parse
  parse-IsParsed contents c h =
      let (raw, _, checked) =
        bind-eq-ok (decode_one decode_document contents) (check_document parse_url) h in
      let (valid, version, core, _, _) = check_document-parts raw c checked in
      record {
        is_valid = validate-IsValid c valid;
        version = version-cases c.schema_version version;
        offline = λ e.
            read_core-version raw.core default_core c.core
              (subst (λ z. read_core z raw.core default_core ≡ ok c.core) e core);
      }

  loaded_from-IsParsed :
      (path : Bytes) (r : Result Bytes) (c : Config)
      → (loaded_from parse_url path r).0 ≡ ok c
      → IsParsed c
  unfolding loaded_from
  loaded_from-IsParsed path (ok contents) c h = parse-IsParsed contents c (wrap_error-eq-ok _ _ c h)
  loaded_from-IsParsed path (err e) c h = elim (Bool-cases (is_not_exist e)) [
    | inr other ↦ absurd (ground arith)
    | inl missing ↦
        let same : defaults ≡ c = ground arith in
        subst IsParsed same (record {
          is_valid = validate-IsValid defaults validate-defaults;
          version = inr refl;
          offline = λ e. refl;
        })
  ]

  -- Whether it comes from a file or is the default, a configuration that is loaded is valid: its
  -- paths are absolute, its limits are within their bounds, its level is known, and Core has an
  -- HTTPS origin if it is enabled; its schema version is 1 or 2, and with version 1 the section
  -- of Core is the default one.
  pub load-IsParsed :
      (path : Bytes) (read_file : Bytes → Result Bytes) (c : Config)
      → (load_with_dependencies parse_url path read_file).0 ≡ ok c
      → IsParsed c
  unfolding load_with_dependencies
  load-IsParsed path read_file c h = loaded_from-IsParsed path (read_file path) c h

-- The client accepts every base URL that a valid configuration has.
pub parse_base_url-IsValid :
    (parse_url : Bytes → Result Url) (c : Config)
    → IsValid parse_url c
    → c.core.base_url ≢ []
    → (url : Url) × (parse_base_url parse_url c.core.base_url ≡ ok url)
unfolding parse_base_url is_origin
parse_base_url-IsValid parse_url c v n = elim (Result-cases (parse_url c.core.base_url)) [
  | inr (e, f) ↦ absurd (ground (arith, v.origin n))
  | inl (parsed, f) ↦ (
    if ends_with_slash parsed.path then parsed else record parsed { path = parsed.path ++ lit "/" },
    ground (arith, v.origin n),
  )
]
