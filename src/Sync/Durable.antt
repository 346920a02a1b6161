-- ===== src/Sync/Durable.antt =====
-- `writeState` and `loadState` of internal/coresync/sync.go over a filesystem that does what its
-- documentation says.
use lts_agent.Base.{◌≡◌, refl, ◌∙◌, subst, true, false, Bytes, [], ◌++◌, Option, some, lit}
use lts_agent.Go.Errors.{Result, ok, err, wrap_error-eq-ok}
use lts_agent.Go.Action.{wrapped, continue-reaches}
use lts_agent.Go.Json.Encode.{encode}
use lts_agent.Sync.Files.{
  FileInfo, Options, Dependencies, write_state, fill_and_rename, clean_up, load_state,
}
use lts_agent.Client.{Client}
use lts_agent.Inventory.{Report}
use lts_agent.Sync.{register}
use lts_agent.Sync.States.{register-IsState}
use lts_agent.Sync.Identity.{IsState}
use lts_agent.Sync.RoundTrip.{load_state-stored}
use lts_agent.Sync.Secrets.{IsSecretFile}
use lts_agent.Sync.State.{state_value}
use lts_agent.Sync.Token.{StateDocument}

-- What the package `os` documents of the files that `writeState` makes: `file` is what stands
-- under a name.
pub record IsFileSystem {W : Type 0} (deps : Dependencies W) : Type 0 where
  pub file : W → Bytes → Option (FileInfo × Bytes)
  -- A temporary file is new: an empty regular file.
  pub created :
      (dir pattern name : Bytes) (w : W)
      → (deps.create_temp dir pattern w).0 ≡ ok name
      → (info : FileInfo) × (info.is_regular ≡ true)
        × (info.is_symlink ≡ false)
        × (file (deps.create_temp dir pattern w).1 name ≡ some (info, []))
  pub changed :
      (name : Bytes) (mode : _) (w : W) (info : FileInfo) (contents : Bytes)
      → (deps.chmod name mode w).0 ≡ ok tt
      → file w name ≡ some (info, contents)
      → file (deps.chmod name mode w).1 name ≡ some (record info { perm = mode }, contents)
  pub written :
      (name s : Bytes) (w : W) (info : FileInfo) (contents : Bytes)
      → (deps.write name s w).0 ≡ ok tt
      → file w name ≡ some (info, contents)
      → file (deps.write name s w).1 name ≡ some (info, contents ++ s)
  pub flushed :
      (name : Bytes) (w : W) (found : FileInfo × Bytes)
      → (deps.sync_file name w).0 ≡ ok tt
      → file w name ≡ some found
      → file (deps.sync_file name w).1 name ≡ some found
  pub closed :
      (name : Bytes) (w : W) (found : FileInfo × Bytes)
      → (deps.close name w).0 ≡ ok tt
      → file w name ≡ some found
      → file (deps.close name w).1 name ≡ some found
  pub renamed :
      (from to : Bytes) (w : W) (found : FileInfo × Bytes)
      → (deps.rename from to w).0 ≡ ok tt
      → file w from ≡ some found
      → file (deps.rename from to w).1 to ≡ some found
  pub inspected :
      (name : Bytes) (w : W) (info : FileInfo) (contents : Bytes)
      → file w name ≡ some (info, contents)
      → ((deps.lstat name w).0 ≡ ok info)
        × (file (deps.lstat name w).1 name ≡ some (info, contents))
  pub read :
      (name : Bytes) (w : W) (info : FileInfo) (contents : Bytes)
      → file w name ≡ some (info, contents)
      → (deps.read_file name w).0 ≡ ok contents

module _ {W : Type 0} (options : Options) (deps : Dependencies W) (fs : IsFileSystem deps)
    (state : StateDocument) where
  -- The state file is private and holds the text of the state.
  pub Stored : W → Type 0
  Stored w =
      (info : FileInfo) × IsSecretFile info
      × (fs.file w options.state_file ≡ some (info, encode (state_value state)))

  pub Stored-stays :
      (w w' : W)
      → fs.file w' options.state_file ≡ fs.file w options.state_file
      → Stored w
      → Stored w'
  unfolding Stored
  Stored-stays w w' e (info, secret, stored) = (info, secret, e ∙ stored)

  fill_and_rename-Stored :
      (temporary : Bytes) (w : W) (info : FileInfo)
      → info.is_regular ≡ true
      → info.is_symlink ≡ false
      → fs.file w temporary ≡ some (info, [])
      → (fill_and_rename options deps temporary state w).0 ≡ ok tt
      → Stored (fill_and_rename options deps temporary state w).1
  unfolding fill_and_rename Stored
  fill_and_rename-Stored temporary w info regular no_link empty h =
      let text = encode (state_value state) in
      let info' = record info { perm = 0o600 } in
      continue-reaches Stored _ _ _ tt h (λ _ e1 h1. continue-reaches Stored _ _ _ tt h1 (λ _ e2 h2.
        continue-reaches Stored _ _ _ tt h2 (λ _ e3 h3.
          continue-reaches Stored _ _ _ tt h3 (λ _ e4 h4. (
            info',
            record { regular = regular; no_symlink = no_link; closed = refl },
            fs.renamed temporary options.state_file _ (info', text) h4
                (fs.closed temporary _ (info', text) e4
                  (fs.flushed temporary _ (info', text) e3
                    (fs.written temporary text _ info' [] e2
                      (fs.changed temporary 0o600 w info [] e1 empty)))),
          )))))

  clean_up-Stored :
      (temporary : Bytes) (r : Result (Unit {0})) (w : W)
      → (clean_up options deps temporary r w).0 ≡ ok tt
      → (r ≡ ok tt → Stored w)
      → Stored (clean_up options deps temporary r w).1
  unfolding clean_up
  clean_up-Stored temporary (ok _) w h k = k refl
  clean_up-Stored temporary (err e) w h k = absurd (cc)

  write_state-Stored :
      (w : W)
      → (write_state options deps state w).0 ≡ ok tt
      → Stored (write_state options deps state w).1
  unfolding write_state
  write_state-Stored w h = continue-reaches Stored _ _ _ tt h (λ _ _ h1.
      continue-reaches Stored _ _ _ tt h1 (λ temporary made h2.
        let (info, regular, no_link, empty) = fs.created _ _ temporary _ made in
        clean_up-Stored temporary _ _ h2
          (fill_and_rename-Stored temporary _ info regular no_link empty)))

  pub load_state-Stored :
      (w : W) → IsState state → Stored w → (load_state options deps w).0 ≡ ok state
  unfolding Stored
  load_state-Stored w h (info, secret, stored) =
      let (found, same) = fs.inspected options.state_file w info _ stored in
      load_state-stored options deps w state info h secret found
        (fs.read options.state_file _ info _ same)

module _ {W : Type 0} (client : Client W) (options : Options) (deps : Dependencies W)
    (fs : IsFileSystem deps) where
  persisted-Stored :
      (w : W) (t s : StateDocument)
      → t ≡ s
      → (wrapped (lit "persist Core state: ") (write_state options deps t) w).0 ≡ ok tt
      → Stored options deps fs s (write_state options deps t w).1
  persisted-Stored w t s same wrote =
      let good = wrap_error-eq-ok _ (write_state options deps t w).0 tt wrote in
      subst (λ u. Stored options deps fs u (write_state options deps t w).1) same
        (write_state-Stored options deps fs t w good)

  pub register-Stored :
      (report : Report) (w : W) (s : StateDocument)
      → (register client options deps report w).0 ≡ ok s
      → Stored options deps fs s (register client options deps report w).1
  unfolding register
  register-Stored report w s h =
      let There = Stored options deps fs s in
      continue-reaches There _ _ _ s h (λ print _ h1.
        continue-reaches There _ _ _ s h1 (λ token _ h2.
          continue-reaches There _ _ _ s h2 (λ state _ h3.
            continue-reaches There _ _ _ s h3
              (λ _ wrote h4. let same : state ≡ s = cc in persisted-Stored _ state s same wrote))))

  -- A node that was registered stays registered: over a filesystem that does what is documented of
  -- it, `loadState` behind a registration that succeeded returns the very state of the
  -- registration.
  pub register-load_state :
      (report : Report) (w : W) (s : StateDocument)
      → (register client options deps report w).0 ≡ ok s
      → (load_state options deps (register client options deps report w).1).0 ≡ ok s
  register-load_state report w s h =
      load_state-Stored options deps fs s _ (register-IsState client options deps report w s h)
        (register-Stored report w s h)
