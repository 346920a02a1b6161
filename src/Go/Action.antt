-- ===== src/Go/Action.antt =====
-- Code with effects: a function of the outside world's state that returns a result and the
-- state after it. What was done before an error stays done.
use lts_agent.Base.{Bytes, ◌≡◌, refl}
use lts_agent.Go.Errors.{Error, Result, ok, err, wrap_error}

abbrev pub Action : Type 0 → Type 0 → Type 0
Action W A = W → Result A × W

module _ {W A : Type 0} where
  abbrev pub pure : A → Action W A
  pure a w = (ok a, w)

  abbrev pub fail : Error → Action W A
  fail e w = (err e, w)

  abbrev pub lift : Result A → Action W A
  lift r w = (r, w)

  -- The error of a step, wrapped.
  abbrev pub wrapped : Bytes → Action W A → Action W A
  wrapped prefix m w = let (r, w') = m w in (wrap_error prefix r, w')

module _ {W A B : Type 0} where
  unfoldable pub continue : Result A → (A → Action W B) → Action W B
  continue (ok a) f w = f a w
  continue (err e) f w = (err e, w)

  infixl 5 ◌>>=◌
  abbrev pub ◌>>=◌ : Action W A → (A → Action W B) → Action W B
  ◌>>=◌ m f w = let (r, w') = m w in continue r f w'

module _ {W B : Type 0} where
  infixl 5 ◌>>◌
  abbrev pub ◌>>◌ : Action W (Unit {0}) → Action W B → Action W B
  m >> n = m >>= λ _. n

module _ {W A B : Type 0} where
  -- What every result of a sequence satisfies, if each result of its second part does.
  pub continue-ensures :
      (P : B → Type 0) (r : Result A) (f : A → Action W B) (w : W)
      → ((a : A) → r ≡ ok a → (b : B) → (f a w).0 ≡ ok b → P b)
      → (b : B) → (continue r f w).0 ≡ ok b
      → P b
  unfolding continue
  continue-ensures P (ok a) f w k b h = k a refl b h
  continue-ensures P (err e) f w k b h = cc

  -- The same for the errors.
  pub continue-fails :
      (P : Error → Type 0) (r : Result A) (f : A → Action W B) (w : W)
      → ((e : Error) → r ≡ err e → P e)
      → ((a : A) → r ≡ ok a → (e : Error) → (f a w).0 ≡ err e → P e)
      → (e : Error) → (continue r f w).0 ≡ err e
      → P e
  unfolding continue
  continue-fails P (ok a) f w h k e eq = k a refl e eq
  continue-fails P (err d) f w h k e eq = h e (cc)

  -- What holds of the state after the second part of a successful sequence holds after it.
  pub continue-reaches :
      (Q : W → Type 0) (r : Result A) (f : A → Action W B) (w : W) (b : B)
      → (continue r f w).0 ≡ ok b
      → ((a : A) → r ≡ ok a → (f a w).0 ≡ ok b → Q (f a w).1)
      → Q (continue r f w).1
  unfolding continue
  continue-reaches Q (ok a) f w b h k = k a refl h
  continue-reaches Q (err e) f w b h k = absurd (cc)
