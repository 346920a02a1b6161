-- ===== src/Client/Bearer.antt =====
-- `ValidateBearer` of internal/core/client.go.
use lts_agent.Base.{◌≤◌, ◌≡◌, ◌≢◌, refl, ◌↔◌, true, Bytes, [], ◌∷◌, all, length, arith}
use lts_agent.Go.Errors.{ok}
use lts_agent.Client.{validate_bearer, is_visible}

-- A token that can stand in a header: visible ASCII, not empty, and of bounded length.
pub record IsBearer (token : Bytes) : Type 0 where
  pub filled : token ≢ []
  pub bounded : length token ≤ 8192
  pub visible : all is_visible token ≡ true

-- `ValidateBearer` accepts exactly the strings of 1 to 8192 bytes of visible ASCII.
pub validate_bearer_exact : (token : Bytes) → (validate_bearer token ≡ ok tt) ↔ IsBearer token
unfolding validate_bearer
validate_bearer_exact [] = (λ h. cc, λ b. absurd (b.filled refl))
validate_bearer_exact (c ∷ token) = (
  λ h. record { filled = λ e. cc; bounded = ground arith; visible = ground arith },
  λ b. ground (arith, b.bounded, b.visible),
)
