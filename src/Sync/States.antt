-- ===== src/Sync/States.antt =====
-- The states that `loadState` and `register` of internal/coresync/sync.go return.
use lts_agent.Base.{◌≡◌, subst, Bytes, arith}
use lts_agent.Go.Errors.{ok}
use lts_agent.Go.Action.{continue-ensures}
use lts_agent.Client.{Client}
use lts_agent.Inventory.{Report}
use lts_agent.Sync.Files.{Options, Dependencies, load_state}
use lts_agent.Sync.Token.{StateDocument}
use lts_agent.Sync.Identity.{IsState, parse_state-IsState, check_registration-IsState}
use lts_agent.Sync.{register, request_registration}

module _ {W : Type 0} (client : Client W) (options : Options) (deps : Dependencies W) where
  -- A state that `loadState` returns has schema version 1, a well-formed node id and a token that
  -- can stand in a header.
  pub load_state-IsState :
      (w : W) (s : StateDocument) → (load_state options deps w).0 ≡ ok s → IsState s
  unfolding load_state
  load_state-IsState w = continue-ensures IsState _ _ _ (λ info _.
      continue-ensures IsState _ _ _
        (λ _ _. continue-ensures IsState _ _ _ (λ contents _. parse_state-IsState contents)))

  request_registration-IsState :
      (print token : Bytes) (report : Report) (w : W) (s : StateDocument)
      → (request_registration client options deps print token report w).0 ≡ ok s
      → IsState s
  unfolding request_registration
  request_registration-IsState print token report w =
      continue-ensures IsState _ _ _ (λ response _. check_registration-IsState response)

  -- A state that `register` returns has schema version 1, a well-formed node id and a token that can
  -- stand in a header.
  pub register-IsState :
      (report : Report) (w : W) (s : StateDocument)
      → (register client options deps report w).0 ≡ ok s
      → IsState s
  unfolding register
  register-IsState report w = continue-ensures IsState _ _ _ (λ print _.
      continue-ensures IsState _ _ _ (λ token _. continue-ensures IsState _ _ _ (λ state checked.
        continue-ensures IsState _ _ _ (λ _ _ s e.
          let same : state ≡ s = ground arith in
          subst IsState same (request_registration-IsState print token report _ state checked)))))
