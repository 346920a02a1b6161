-- ===== src/Sync/Secrets.antt =====
-- Secrets in internal/coresync/sync.go: which files they are read from, and what errors show.
use lts_agent.Base.{
  ℕ, ◌%◌, ◌≡◌, refl, true, false, Bytes, List, [], ◌∷◌, ◌++◌, arith, lit, some, subst, sym,
}
use lts_agent.Go.Errors.{wrap_error-eq-ok, Error, wrap, http, as_http, ok}
use lts_agent.Go.Action.{continue-ensures}
use lts_agent.Go.Numbers.{show_nat}
use lts_agent.Go.Strings.{trim_space}
use lts_agent.Client.Bearer.{IsBearer}
use lts_agent.Sync.Files.{Options, Dependencies, FileInfo, validate_secret_file, read_secret}
use lts_agent.Sync.Identity.{refuse_bearer-IsBearer}
use lts_agent.Sync.{sanitize_error}

-- A file that may hold a secret: regular, no symbolic link, and closed to group and world.
pub record IsSecretFile (info : FileInfo) : Type 0 where
  pub regular : info.is_regular ≡ true
  pub no_symlink : info.is_symlink ≡ false
  pub closed : info.perm % 64 ≡ 0

validate_secret_file-IsSecretFile :
    (info : FileInfo) (name : Bytes) → validate_secret_file info name ≡ ok tt → IsSecretFile info
unfolding validate_secret_file
validate_secret_file-IsSecretFile info name h = ground arith

pub ok-injective : (a b : Bytes) → ok a ≡ ok b → a ≡ b
ok-injective a b e = ground arith

-- A secret, and the file at `path` that it was read from, behind its `Lstat`.
pub record Secret {W : Type 0} (deps : Dependencies W) (path : Bytes) (w : W) (token : Bytes)
    : Type 0 where
  pub info : FileInfo
  pub found : (deps.lstat path w).0 ≡ ok info
  pub file : IsSecretFile info
  pub contents : Bytes
  pub read : (deps.read_file path (deps.lstat path w).1).0 ≡ ok contents
  pub trimmed : token ≡ trim_space contents
  pub bearer : IsBearer token

module _ {W : Type 0} (options : Options) (deps : Dependencies W) where
  -- `readSecret` returns a token only from the file at its path, which it finds to be regular, no
  -- symbolic link and closed to group and world before it reads it: the token is what it reads
  -- there, without the white space around it, and can stand in a header.
  pub read_secret-Secret :
      (path name : Bytes) (w : W) (token : Bytes)
      → (read_secret options deps path name w).0 ≡ ok token
      → Secret deps path w token
  unfolding read_secret
  read_secret-Secret path name w = continue-ensures (Secret deps path w) _ _ _ (λ info found.
      continue-ensures (Secret deps path w) _ _ _ (λ _ valid.
        continue-ensures (Secret deps path w) _ _ _ (λ contents read.
          continue-ensures (Secret deps path w) _ _ _ (λ _ bearer token e.
            let same = ok-injective _ _ e in
            record {
              info = info;
              found = wrap_error-eq-ok _ _ info found;
              file = validate_secret_file-IsSecretFile info name valid;
              contents = contents;
              read = wrap_error-eq-ok _ (deps.read_file path (deps.lstat path w).1).0 contents read;
              trimmed = sym same;
              bearer = subst IsBearer same (refuse_bearer-IsBearer (trim_space contents) _ bearer);
            }))))

-- `fmt.Errorf` around an error, any number of times.
abbrev pub wrapped_in : List Bytes → Error → Error
wrapped_in [] e = e
wrapped_in (prefix ∷ prefixes) e = wrap prefix (wrapped_in prefixes e)

as_http-wrapped_in :
    (prefixes : List Bytes) (status : ℕ) (body : Bytes)
    → as_http (wrapped_in prefixes (http status body)) ≡ some status
unfolding as_http
as_http-wrapped_in [] status body = refl
as_http-wrapped_in (p ∷ prefixes) status body = as_http-wrapped_in prefixes status body

-- However deep an HTTP error is wrapped, `sanitizeError` gives its status alone, whatever Core
-- answered and whatever the wrapping says.
pub sanitize_error-http :
    (prefixes : List Bytes) (status : ℕ) (body : Bytes)
    → sanitize_error (wrapped_in prefixes (http status body))
      ≡ lit "LTS Core returned HTTP " ++ show_nat status
unfolding sanitize_error
sanitize_error-http prefixes status body =
    rw (as_http-wrapped_in prefixes status body, sanitize_error) refl
