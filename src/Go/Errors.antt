-- ===== src/Go/Errors.antt =====
-- Go's error values: `errors.New`, `fmt.Errorf` with `%w`, `errors.Is`, `errors.As`, and the pair
-- of a value and an error that a fallible function returns.
use lts_agent.Base.{
  ℕ, Bool, true, false, Bytes, ◌++◌, ◌≡◌, Option, none, some, lit, ◌∷◌, [], refl, ◌⊎◌, inl, inr,
}
use lts_agent.Go.Numbers.{show_nat}

-- `text` is an error with no cause inside, `not_exist` one that `os.ErrNotExist` matches,
-- `state_not_found` is coresync's sentinel, `too_large` the client's, `http` the client's
-- `HTTPError`, and `wrap` is `fmt.Errorf("<prefix>%w", cause)`.
pub data Error : Type 0 where
  text : Bytes → Error
  not_exist : Bytes → Error
  state_not_found : Error
  too_large : Error
  http : ℕ → Bytes → Error
  wrap : Bytes → Error → Error

-- `HTTPError.Error`, on the status code and the body.
unfoldable pub http_text : ℕ → Bytes → Bytes
http_text status [] = lit "LTS Core returned HTTP " ++ show_nat status
http_text status (c ∷ body) =
    lit "LTS Core returned HTTP " ++ (show_nat status ++ (lit ": " ++ (c ∷ body)))

-- `err.Error()`.
unfoldable pub error_text : Error → Bytes
unfolding http_text
error_text (text s) = s
error_text (not_exist s) = s
error_text state_not_found = lit "Core state not found"
error_text too_large = lit "LTS Core response exceeds 1 MiB limit"
error_text (http status body) = http_text status body
error_text (wrap prefix cause) = prefix ++ error_text cause

-- `errors.Is(err, os.ErrNotExist)`.
unfoldable pub is_not_exist : Error → Bool
is_not_exist (not_exist s) = true
is_not_exist (wrap prefix cause) = is_not_exist cause
is_not_exist _ = false

-- `errors.Is(err, errStateNotFound)`.
unfoldable pub is_state_not_found : Error → Bool
is_state_not_found state_not_found = true
is_state_not_found (wrap prefix cause) = is_state_not_found cause
is_state_not_found _ = false

-- `errors.As(err, &statusError)`, down to the status code.
unfoldable pub as_http : Error → Option ℕ
as_http (http status body) = some status
as_http (wrap prefix cause) = as_http cause
as_http _ = none

pub data Result {ℓ} (A : Type ℓ) : Type ℓ where
  ok : A → Result A
  err : Error → Result A

infixl 5 ◌>>◌ ◌>>=◌
abbrev pub ◌>>=◌ {ℓ κ} : {A : Type ℓ} {B : Type κ} → Result A → (A → Result B) → Result B
ok value >>= rest = rest value
err e >>= rest = err e

-- An early return with an error: `require test e` goes on when the test holds.
abbrev pub require : Bool → Error → Result (Unit {0})
require true e = ok tt
require false e = err e

abbrev pub ◌>>◌ {ℓ} : {B : Type ℓ} → Result (Unit {0}) → Result B → Result B
guarded >> rest = guarded >>= λ _. rest

-- `if err != nil { return fmt.Errorf("<prefix>%w", err) }`.
abbrev pub wrap_error {ℓ} : {A : Type ℓ} → Bytes → Result A → Result A
wrap_error prefix (ok a) = ok a
wrap_error prefix (err e) = err (wrap prefix e)

-- `%v` of the error of a result, which may be nil.
abbrev pub show_failure : {A : Type 0} → Result A → Bytes
show_failure (ok a) = lit "<nil>"
show_failure (err e) = error_text e

-- A value that must be there.
abbrev pub given {ℓ} : {A : Type ℓ} → Option A → Error → Result A
given (some a) e = ok a
given none e = err e

module _ {ℓ κ} {A : Type ℓ} {B : Type κ} where
  pub bind-eq-ok :
      (r : Result A) (rest : A → Result B) {b : B}
      → (r >>= rest) ≡ ok b
      → (a : A) × (r ≡ ok a) × (rest a ≡ ok b)
  bind-eq-ok (ok a) rest h = (a, refl, h)
  bind-eq-ok (err e) rest h = cc

pub Result-cases {ℓ} :
    {A : Type ℓ} (r : Result A) → ((a : A) × (r ≡ ok a)) ⊎ ((e : Error) × (r ≡ err e))
Result-cases (ok a) = inl (a, refl)
Result-cases (err e) = inr (e, refl)

pub require-eq-ok : (b : Bool) (e : Error) → require b e ≡ ok tt → b ≡ true
require-eq-ok true e h = refl
require-eq-ok false e h = cc

pub wrap_error-eq-ok :
    {A : Type 0} (prefix : Bytes) (r : Result A) (a : A) → wrap_error prefix r ≡ ok a → r ≡ ok a
wrap_error-eq-ok prefix (ok b) a h = h
wrap_error-eq-ok prefix (err e) a h = cc

pub wrap_error-eq-err :
    {A : Type 0} (prefix : Bytes) (r : Result A) (e : Error)
    → wrap_error prefix r ≡ err e
    → (cause : Error) × (wrap prefix cause ≡ e) × (r ≡ err cause)
wrap_error-eq-err prefix (ok a) e h = absurd (cc)
wrap_error-eq-err prefix (err d) e h = (d, cc, refl)
