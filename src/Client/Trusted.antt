-- ===== src/Client/Trusted.antt =====
-- The certificates that `New` of internal/core/client.go loads, and why it may not.
use lts_agent.Base.{
  ◌≡◌, ◌≢◌, ◌∷◌, subst, refl, true, false, Bytes, [], ◌++◌, Option, none, some, lit, arith,
  is_empty, inl, inr, Bool-cases, if◌then◌else◌,
}
use lts_agent.Go.Errors.{Error, text, wrap, wrap_error-eq-err, wrap_error-eq-ok, ok, err}
use lts_agent.Go.Action.{Action, pure, continue-ensures, continue-fails}
use lts_agent.Client.Setup.{Trust, appended, base_pool, add_ca_file, root_pool}

-- What is loaded in the world `w`.
module _ {W Pool : Type 0} (trust : Trust W Pool) (w : W) where
  -- The pool of the system, or an empty one if the system has none.
  pub data IsSystemPool : Pool → Type 0 where
    provided : (pool : Pool) → (trust.system_cert_pool w).0 ≡ ok (some pool) → IsSystemPool pool
    absent : (trust.system_cert_pool w).0 ≡ ok none → IsSystemPool trust.new_cert_pool

  base_pool-IsSystemPool :
      (system : Option Pool)
      → (trust.system_cert_pool w).0 ≡ ok system
      → IsSystemPool (base_pool trust system)
  unfolding base_pool
  base_pool-IsSystemPool none h = absent h
  base_pool-IsSystemPool (some pool) h = provided pool h

  -- The certificates that a client trusts: those of the system, and those read from the CA file, if
  -- one is set, which then has at least one.
  pub data IsRootPool (ca_file : Bytes) : Pool → Type 0 where
    system_only : (pool : Pool) → ca_file ≡ [] → IsSystemPool pool → IsRootPool ca_file pool
    with_file :
        (pool : Pool) (certificate : Bytes)
        → ca_file ≢ []
        → IsSystemPool pool
        → (trust.read_file ca_file (trust.system_cert_pool w).1).0 ≡ ok certificate
        → (trust.append_certs pool certificate).1 ≡ true
        → IsRootPool ca_file (trust.append_certs pool certificate).0

  -- Why certificates could not be loaded: the pool of the system could not, or the CA file could
  -- not be read, or what was read has no certificate.
  pub data IsTrustError (ca_file : Bytes) : Error → Type 0 where
    no_system :
        (e : Error)
        → (trust.system_cert_pool w).0 ≡ err e
        → IsTrustError ca_file (wrap (lit "load system certificate pool: ") e)
    unreadable :
        (e : Error)
        → ca_file ≢ []
        → (trust.read_file ca_file (trust.system_cert_pool w).1).0 ≡ err e
        → IsTrustError ca_file (wrap (lit "read CA file " ++ (ca_file ++ lit ": ")) e)
    no_certificate :
        (pool : Pool) (certificate : Bytes)
        → ca_file ≢ []
        → IsSystemPool pool
        → (trust.read_file ca_file (trust.system_cert_pool w).1).0 ≡ ok certificate
        → (trust.append_certs pool certificate).1 ≡ false
        → IsTrustError ca_file
            (text (lit "CA file " ++ (ca_file ++ lit " contains no valid PEM certificates")))

  -- The CA file, on top of a pool of the system.
  module _ (ca_file : Bytes) (pool : Pool) (named : ca_file ≢ []) (system : IsSystemPool pool)
      (certificate : Bytes)
      (read : (trust.read_file ca_file (trust.system_cert_pool w).1).0 ≡ ok certificate) where
    appended-IsRootPool :
        (p : Pool)
        → appended ca_file (trust.append_certs pool certificate) ≡ ok p
        → IsRootPool ca_file p
    unfolding appended
    appended-IsRootPool p h = elim (Bool-cases (trust.append_certs pool certificate).1) [
      | inr missing ↦ absurd (ground arith)
      | inl found ↦
          let same : (trust.append_certs pool certificate).0 ≡ p = ground arith in
          subst (IsRootPool ca_file) same (with_file pool certificate named system read found)
    ]

    appended-IsTrustError :
        (e : Error)
        → appended ca_file (trust.append_certs pool certificate) ≡ err e
        → IsTrustError ca_file e
    unfolding appended
    appended-IsTrustError e h = elim (Bool-cases (trust.append_certs pool certificate).1) [
      | inl found ↦ absurd (ground arith)
      | inr missing ↦
          subst (IsTrustError ca_file) (ground arith)
            (no_certificate pool certificate named system read missing)
    ]

  -- The rest of `root_pool`, behind the pool of the system.
  selected : Bytes → Pool → Action W Pool
  selected ca_file pool = if is_empty ca_file then pure pool else add_ca_file trust ca_file pool

  selected-IsRootPool :
      (ca_file : Bytes) (pool : Pool)
      → IsSystemPool pool
      → (p : Pool) → (selected ca_file pool (trust.system_cert_pool w).1).0 ≡ ok p
      → IsRootPool ca_file p
  unfolding selected add_ca_file
  selected-IsRootPool [] pool system p h =
      let same : pool ≡ p = ground arith in
      subst (IsRootPool []) same (system_only pool refl system)
  selected-IsRootPool (c ∷ path) pool system p h =
      continue-ensures (IsRootPool (c ∷ path)) _ _ _
        (λ certificate read.
          appended-IsRootPool (c ∷ path) pool (λ e. cc) system certificate
            (wrap_error-eq-ok _ (trust.read_file (c ∷ path) (trust.system_cert_pool w).1).0
              certificate read))
        p h

  selected-IsTrustError :
      (ca_file : Bytes) (pool : Pool)
      → IsSystemPool pool
      → (e : Error) → (selected ca_file pool (trust.system_cert_pool w).1).0 ≡ err e
      → IsTrustError ca_file e
  unfolding selected add_ca_file
  selected-IsTrustError [] pool system e h = absurd (cc)
  selected-IsTrustError (c ∷ path) pool system e h =
      let contents = (trust.read_file (c ∷ path) (trust.system_cert_pool w).1).0 in
      continue-fails (IsTrustError (c ∷ path)) _ _ _
        (λ e h.
          let (cause, same, failed) = wrap_error-eq-err _ contents e h in
          subst (IsTrustError (c ∷ path)) same (unreadable cause (λ n. cc) failed))
        (λ certificate read.
          appended-IsTrustError (c ∷ path) pool (λ n. cc) system certificate
            (wrap_error-eq-ok _ contents certificate read))
        e h

  pub root_pool-IsRootPool :
      (ca_file : Bytes) (pool : Pool)
      → (root_pool trust ca_file w).0 ≡ ok pool
      → IsRootPool ca_file pool
  unfolding root_pool selected
  root_pool-IsRootPool ca_file = continue-ensures (IsRootPool ca_file) _ _ _ (λ system found.
      selected-IsRootPool ca_file (base_pool trust system) (
        base_pool-IsSystemPool system
          (wrap_error-eq-ok _ (trust.system_cert_pool w).0 system found)))

  pub root_pool-IsTrustError :
      (ca_file : Bytes) (e : Error) → (root_pool trust ca_file w).0 ≡ err e → IsTrustError ca_file e
  unfolding root_pool selected
  root_pool-IsTrustError ca_file =
      continue-fails (IsTrustError ca_file) _ _ _
        (λ e h.
          let (cause, same, failed) = wrap_error-eq-err _ (trust.system_cert_pool w).0 e h in
          subst (IsTrustError ca_file) same (no_system cause failed))
        (λ system found. selected-IsTrustError ca_file (base_pool trust system) (
          base_pool-IsSystemPool system
            (wrap_error-eq-ok _ (trust.system_cert_pool w).0 system found)))
