-- ===== src/Sync/Enrollment.antt =====
-- The enrollment token in internal/coresync/sync.go: it is removed only behind a persisted state.
use lts_agent.Base.{ℕ, ◌≡◌, Bytes, lit}
use lts_agent.Go.Errors.{Result, ok, err}
use lts_agent.Client.{Client}
use lts_agent.Inventory.{Report}
use lts_agent.Sync.Files.{
  Options, Dependencies, fingerprint, read_secret, prepare_directory, fill_and_rename, clean_up,
  write_state,
}
use lts_agent.Sync.Token.{StateDocument}
use lts_agent.Sync.Atomic.{Keeps, continue-Keeps}
use lts_agent.Sync.Quiet.{SparesReads, SparesNetwork, do_json_with_bearer-Keeps}
use lts_agent.Sync.{request_registration, register}

-- The documented behaviour of the calls of a cycle towards a statement `P` about the enrollment
-- token: no call but the removal of its file changes that file. A call on a temporary file is one
-- on a file that `CreateTemp` made in the state directory.
pub record SparesToken {W : Type 0} (options : Options) (deps : Dependencies W) (P : W → Type 0)
    : Type 0 where
  pub reads : SparesReads deps P
  pub mkdir_all : (path : Bytes) (mode : ℕ) → Keeps P (deps.mkdir_all path mode)
  pub create_temp : (dir pattern : Bytes) → Keeps P (deps.create_temp dir pattern)
  pub on_temporary :
      (dir temporary : Bytes) (w : W)
      → (deps.create_temp dir (lit ".state-*") w).0 ≡ ok temporary
      → ((mode : ℕ) → Keeps P (deps.chmod temporary mode))
        × ((contents : Bytes) → Keeps P (deps.write temporary contents))
        × Keeps P (deps.sync_file temporary)
        × Keeps P (deps.close temporary)
        × Keeps P (deps.rename temporary options.state_file)
        × Keeps P (deps.remove temporary)

module _ {W : Type 0} (options : Options) (deps : Dependencies W) (P : W → Type 0)
    (calm : SparesToken options deps P) where
  prepare_directory-Keeps : (directory : Bytes) → Keeps P (prepare_directory options deps directory)
  unfolding prepare_directory
  prepare_directory-Keeps directory w p =
      let q = calm.mkdir_all directory 0o700 w p in
      continue-Keeps P _ _ _ q (λ _ _.
        let r = calm.reads.lstat directory _ q in
        continue-Keeps P _ _ _ r (λ info _. continue-Keeps P _ _ _ r (λ _ _. r)))

  module _ (dir temporary : Bytes) (v : W)
      (made : (deps.create_temp dir (lit ".state-*") v).0 ≡ ok temporary) where
    clean_up-Keeps : (r : Result (Unit {0})) → Keeps P (clean_up options deps temporary r)
    unfolding clean_up
    clean_up-Keeps (ok _) w p = p
    clean_up-Keeps (err e) w p =
        let (_, _, _, close, _, remove) = calm.on_temporary dir temporary v made in
        remove _ (close w p)

    fill_and_rename-Keeps :
        (state : StateDocument) → Keeps P (fill_and_rename options deps temporary state)
    unfolding fill_and_rename
    fill_and_rename-Keeps state w p =
        let (chmod, write, sync_file, close, rename, _) = calm.on_temporary dir temporary v made in
        let p1 = chmod 0o600 w p in
        continue-Keeps P _ _ _ p1 (λ _ _.
          let p2 = write _ _ p1 in
          continue-Keeps P _ _ _ p2 (λ _ _.
            let p3 = sync_file _ p2 in
            continue-Keeps P _ _ _ p3
              (λ _ _. let p4 = close _ p3 in continue-Keeps P _ _ _ p4 (λ _ _. rename _ p4))))

  pub write_state-Keeps : (state : StateDocument) → Keeps P (write_state options deps state)
  unfolding write_state
  write_state-Keeps state w p =
      let q = prepare_directory-Keeps (deps.dir options.state_file) w p in
      continue-Keeps P _ _ _ q (λ _ _.
        let q1 = calm.create_temp _ _ _ q in
        continue-Keeps P _ _ _ q1 (λ temporary made.
          clean_up-Keeps _ temporary _ made _ _
            (fill_and_rename-Keeps _ temporary _ made state _ q1)))

  pub fingerprint-Keeps : Keeps P (fingerprint options deps)
  unfolding fingerprint
  fingerprint-Keeps w p =
      let q = calm.reads.read_file options.machine_id_path w p in
      continue-Keeps P _ _ _ q (λ _ _. continue-Keeps P _ _ _ q (λ _ _. q))

  pub read_secret-Keeps : (path name : Bytes) → Keeps P (read_secret options deps path name)
  unfolding read_secret
  read_secret-Keeps path name w p =
      let q = calm.reads.lstat path w p in
      continue-Keeps P _ _ _ q (λ _ _. continue-Keeps P _ _ _ q (λ _ _.
        let r = calm.reads.read_file path _ q in
        continue-Keeps P _ _ _ r (λ _ _. continue-Keeps P _ _ _ r (λ _ _. r))))

  module _ (client : Client W) (net : SparesNetwork client deps P) where
    request_registration-Keeps :
        (print token : Bytes) (report : Report)
        → Keeps P (request_registration client options deps print token report)
    unfolding request_registration
    request_registration-Keeps print token report w p =
        let q = do_json_with_bearer-Keeps client options deps P net _ _ _ _ _ w p in
        continue-Keeps P _ _ _ q (λ _ _. q)

    pub register-Keeps : (report : Report) → Keeps P (register client options deps report)
    unfolding register
    register-Keeps report w p =
        let p1 = fingerprint-Keeps w p in
        continue-Keeps P _ _ _ p1 (λ print _.
          let p2 = read_secret-Keeps _ _ _ p1 in
          continue-Keeps P _ _ _ p2 (λ token _.
            let p3 = request_registration-Keeps print token report _ p2 in
            continue-Keeps P _ _ _ p3 (λ state _.
              let p4 = write_state-Keeps state _ p3 in continue-Keeps P _ _ _ p4 (λ _ _. p4))))
