-- ===== src/Sync/Atomic.antt =====
-- `writeState` of internal/coresync/sync.go leaves the state file alone unless it succeeds.
use lts_agent.Base.{ℕ, ◌≡◌, refl, Bytes, lit}
use lts_agent.Go.Errors.{Error, Result, ok, err}
use lts_agent.Go.Action.{Action, continue}
use lts_agent.Sync.Files.{
  Options, Dependencies, prepare_directory, fill_and_rename, clean_up, write_state,
}
use lts_agent.Sync.Token.{StateDocument}

-- `P` holds after the action if it held before, whatever the action returns.
abbrev pub Keeps : {W A : Type 0} → (W → Type 0) → Action W A → Type 0
Keeps {W} P m = (w : W) → P w → P (m w).1

-- The documented behaviour of the filesystem calls of `writeState` towards a statement `P` about
-- the state file: no call but a successful rename onto the state file changes that file. A call
-- on a temporary file is one on a file that `CreateTemp` made in the state directory.
pub record LeavesAlone {W : Type 0} (options : Options) (deps : Dependencies W) (P : W → Type 0)
    : Type 0 where
  pub lstat : (path : Bytes) → Keeps P (deps.lstat path)
  pub mkdir_all : (path : Bytes) (mode : ℕ) → Keeps P (deps.mkdir_all path mode)
  pub create_temp : (dir pattern : Bytes) → Keeps P (deps.create_temp dir pattern)
  pub chmod :
      (dir temporary : Bytes) (w : W)
      → (deps.create_temp dir (lit ".state-*") w).0 ≡ ok temporary
      → (mode : ℕ) → Keeps P (deps.chmod temporary mode)
  pub write :
      (dir temporary : Bytes) (w : W)
      → (deps.create_temp dir (lit ".state-*") w).0 ≡ ok temporary
      → (contents : Bytes) → Keeps P (deps.write temporary contents)
  pub sync_file : (temporary : Bytes) → Keeps P (deps.sync_file temporary)
  pub close : (temporary : Bytes) → Keeps P (deps.close temporary)
  pub remove :
      (dir temporary : Bytes) (w : W)
      → (deps.create_temp dir (lit ".state-*") w).0 ≡ ok temporary
      → Keeps P (deps.remove temporary)
  pub rename_fails :
      (temporary : Bytes) (w : W) (e : Error)
      → (deps.rename temporary options.state_file w).0 ≡ err e
      → P w
      → P (deps.rename temporary options.state_file w).1

-- If the sequence fails, `P` holds at its end.
abbrev FailsWith : {W A : Type 0} → (W → Type 0) → Result A × W → Type 0
FailsWith P (r, w) = (e : Error) → r ≡ err e → P w

module _ {W A B : Type 0} (P : W → Type 0) where
  pub continue-Keeps :
      (r : Result A) (f : A → Action W B) (w : W)
      → P w
      → ((a : A) → r ≡ ok a → P (f a w).1)
      → P (continue r f w).1
  unfolding continue
  continue-Keeps (ok a) f w p k = k a refl
  continue-Keeps (err e) f w p k = p

  continue-FailsWith :
      (r : Result A) (f : A → Action W B) (w : W)
      → P w
      → ((a : A) → r ≡ ok a → FailsWith P (f a w))
      → FailsWith P (continue r f w)
  unfolding continue
  continue-FailsWith (ok a) f w p k = k a refl
  continue-FailsWith (err e) f w p k = λ _ _. p

module _ {W : Type 0} (options : Options) (deps : Dependencies W) (P : W → Type 0)
    (fs : LeavesAlone options deps P) where
  prepare_directory-Keeps : (directory : Bytes) → Keeps P (prepare_directory options deps directory)
  unfolding prepare_directory
  prepare_directory-Keeps directory w p =
      let q = fs.mkdir_all directory 0o700 w p in
      continue-Keeps P _ _ _ q (λ _ _.
        let r = fs.lstat directory _ q in
        continue-Keeps P _ _ _ r (λ info _. continue-Keeps P _ _ _ r (λ _ _. r)))

  clean_up-FailsWith :
      (dir temporary : Bytes) (v : W)
      → (deps.create_temp dir (lit ".state-*") v).0 ≡ ok temporary
      → (r : Result (Unit {0})) (w : W) → FailsWith P (r, w)
      → FailsWith P (clean_up options deps temporary r w)
  unfolding clean_up
  clean_up-FailsWith dir temporary v made (ok tt) w k = k
  clean_up-FailsWith dir temporary v made (err e) w k =
      λ _ _. fs.remove dir temporary v made _ (fs.close temporary w (k e refl))

  fill_and_rename-FailsWith :
      (dir temporary : Bytes) (v : W)
      → (deps.create_temp dir (lit ".state-*") v).0 ≡ ok temporary
      → (state : StateDocument) (w : W) → P w
      → FailsWith P (fill_and_rename options deps temporary state w)
  unfolding fill_and_rename
  fill_and_rename-FailsWith dir temporary v made state w p =
      let p1 = fs.chmod dir temporary v made 0o600 w p in
      continue-FailsWith P _ _ _ p1 (λ _ _.
        let p2 = fs.write dir temporary v made _ _ p1 in
        continue-FailsWith P _ _ _ p2 (λ _ _.
          let p3 = fs.sync_file temporary _ p2 in
          continue-FailsWith P _ _ _ p3 (λ _ _.
            let p4 = fs.close temporary _ p3 in
            continue-FailsWith P _ _ _ p4 (λ _ _ e h. fs.rename_fails temporary _ e h p4))))

  -- When `writeState` fails, at whatever step, the state file is as it was before: a statement
  -- about it that no call but a successful rename onto the state file can change still holds.
  pub write_state_atomic :
      (state : StateDocument) (w : W) (e : Error)
      → P w
      → (write_state options deps state w).0 ≡ err e
      → P (write_state options deps state w).1
  unfolding write_state
  write_state_atomic state w e p =
      let q = prepare_directory-Keeps (deps.dir options.state_file) w p in
      continue-FailsWith P _ _ _ q
        (λ _ _.
          let q1 = fs.create_temp _ _ _ q in
          continue-FailsWith P _ _ _ q1 (λ temporary made.
            clean_up-FailsWith _ temporary _ made _ _
              (fill_and_rename-FailsWith _ temporary _ made state _ q1)))
        e
