-- ===== src/Sync/Persisted.antt =====
-- When internal/coresync/sync.go gives the enrollment token up: only behind a persisted state.
use lts_agent.Base.{
  ◌≡◌, refl, subst, Bool, true, false, Bytes, arith, inl, inr, ◌⊎◌, if◌then◌else◌, Bool-cases,
}
use lts_agent.Go.Errors.{wrap_error-eq-ok, Result, ok, err, is_state_not_found}
use lts_agent.Go.Action.{continue-ensures}
use lts_agent.Go.Json.Encode.{encode}
use lts_agent.Client.{Client}
use lts_agent.Inventory.{Report}
use lts_agent.Sync.Files.{Options, Dependencies, load_state, fill_and_rename, clean_up, write_state}
use lts_agent.Sync.State.{state_value}
use lts_agent.Sync.Token.{StateDocument}
use lts_agent.Sync.Enrollment.{SparesToken, register-Keeps}
use lts_agent.Sync.Kept.{report_in-part}
use lts_agent.Sync.Quiet.{SparesNetwork, load_state-Keeps, report_in-Keeps}
use lts_agent.Sync.{Outcome, register, enrolled, enroll, resume, sync}

module _ {W : Type 0} (options : Options) (deps : Dependencies W) where
  -- A temporary file was closed to others, given the whole state, flushed, closed and renamed onto
  -- the state file, in this order and each time with success.
  pub record Persisted (s : StateDocument) : Type 0 where
    pub temporary : Bytes
    pub start : W
    pub chmodded : (deps.chmod temporary 0o600 start).0 ≡ ok tt
    pub written :
        (deps.write temporary (encode (state_value s)) (deps.chmod temporary 0o600 start).1).0
        ≡ ok tt
    pub synced :
        (deps.sync_file temporary
          (deps.write temporary (encode (state_value s)) (deps.chmod temporary 0o600 start).1).1).0
        ≡ ok tt
    pub flushed : W
    pub flushed_is :
        flushed
        ≡ (deps.sync_file temporary
            (deps.write temporary
              (encode (state_value s))
              (deps.chmod temporary 0o600 start).1).1).1
    pub was_closed : (deps.close temporary flushed).0 ≡ ok tt
    pub renamed :
        (deps.rename temporary options.state_file (deps.close temporary flushed).1).0 ≡ ok tt

  fill_and_rename-Persisted :
      (temporary : Bytes) (s : StateDocument) (w : W) (b : Unit {0})
      → (fill_and_rename options deps temporary s w).0 ≡ ok b
      → Persisted s
  unfolding fill_and_rename
  fill_and_rename-Persisted temporary s w =
      continue-ensures (λ _. Persisted s) _ _ _
        (λ _ e1.
          continue-ensures (λ _. Persisted s) _ _ _
            (λ _ e2.
              continue-ensures (λ _. Persisted s) _ _ _
                (λ _ e3.
                  continue-ensures (λ _. Persisted s) _ _ _
                    (λ _ e4 _ e5. record {
                      temporary = temporary;
                      start = w;
                      chmodded = e1;
                      written = e2;
                      synced = e3;
                      flushed = _;
                      flushed_is = refl;
                      was_closed = e4;
                      renamed = e5;
                    }))))

  clean_up-ok :
      (temporary : Bytes) (r : Result (Unit {0})) (w : W) (b : Unit {0})
      → (clean_up options deps temporary r w).0 ≡ ok b
      → r ≡ ok tt
  unfolding clean_up
  clean_up-ok temporary (ok tt) w b h = refl
  clean_up-ok temporary (err e) w b h = cc

  write_state-Persisted :
      (s : StateDocument) (w : W) (b : Unit {0})
      → (write_state options deps s w).0 ≡ ok b
      → Persisted s
  unfolding write_state
  write_state-Persisted s w =
      continue-ensures (λ _. Persisted s) _ _ _
        (λ _ _.
          continue-ensures (λ _. Persisted s) _ _ _
            (λ temporary _ b e.
              fill_and_rename-Persisted temporary s _ tt (clean_up-ok temporary _ _ b e)))

if-either :
    {A : Type 0} (P Q : A → Type 0) (b : Bool) (x y : A)
    → P x ⊎ Q x
    → P y
    → P (if b then x else y) ⊎ Q (if b then x else y)
if-either P Q true x y h p = h
if-either P Q false x y h p = inl p

module _ {W : Type 0} (client : Client W) (options : Options) (deps : Dependencies W) where
  register-Persisted :
      (report : Report) (w : W) (s : StateDocument)
      → (register client options deps report w).0 ≡ ok s
      → Persisted options deps s
  unfolding register
  register-Persisted report w = continue-ensures (Persisted options deps) _ _ _ (λ print _.
      continue-ensures (Persisted options deps) _ _ _ (λ token _.
        continue-ensures (Persisted options deps) _ _ _ (λ state _.
          continue-ensures (Persisted options deps) _ _ _ (λ _ e s same.
            subst (Persisted options deps) (ground arith)
              (write_state-Persisted options deps state _ tt (wrap_error-eq-ok _ _ tt e))))))

  -- The cycle persisted a state, whose id it reports.
  pub record Enrolled (o : Outcome) : Type 0 where
    pub state : StateDocument
    pub persisted : Persisted options deps state
    pub same_id : o.0.node_id ≡ state.node_id

  module _ (P : W → Type 0) (calm : SparesToken options deps P)
      (net : SparesNetwork client deps P) where
    enrolled-token :
        (report : Report) (reply : Result StateDocument) (w : W)
        → P w
        → ((s : StateDocument) → reply ≡ ok s → Persisted options deps s)
        → P (enrolled client options deps report reply w).1
          ⊎ Enrolled (enrolled client options deps report reply w).0
    unfolding enrolled
    enrolled-token report (err e) w p k = inl p
    enrolled-token report (ok s) w p k = inr (record {
      state = s;
      persisted = k s refl;
      same_id =
          report_in-part (λ c. c.node_id) (λ _ _. refl) (λ _ _. refl) client options deps report _ _
            s _;
    })

    resume-token :
        (report : Report) (loaded : Result StateDocument) (w : W)
        → P w
        → P (resume client options deps report loaded w).1
          ⊎ Enrolled (resume client options deps report loaded w).0
    unfolding resume enroll
    resume-token report (ok s) w p =
        inl (report_in-Keeps client options deps P net report _ _ s w p)
    resume-token report (err e) w p = elim (Bool-cases (is_state_not_found e)) [
      | inl found ↦ rw found (
          enrolled-token report (register client options deps report w).0 _
            (register-Keeps options deps P calm client net report w p)
            (register-Persisted report w))
      | inr other ↦ rw other (inl p)
    ]

    -- Whatever happens in a cycle, the enrollment token is as it was before, or the state of the
    -- node has been persisted: a statement about the token that no call but the removal of its file
    -- can change still holds, or a file with the state was made private, written, flushed, closed
    -- and renamed onto the state file, each with success, and `Sync` reports the id of that state.
    pub sync_token_or_state :
        (report : Report) (w : W)
        → P w
        → P (sync client options deps report w).1 ⊎ Enrolled (sync client options deps report w).0
    unfolding sync
    sync_token_or_state report w p =
        if-either (λ (r : Outcome × W). P r.1) (λ (r : Outcome × W). Enrolled r.0) options.enabled _
          _
          (resume-token report (load_state options deps w).0 _
            (load_state-Keeps options deps P calm.reads w p))
          p
