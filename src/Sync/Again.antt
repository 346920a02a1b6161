-- ===== src/Sync/Again.antt =====
-- Cycle after cycle of internal/coresync/sync.go over a filesystem that does what is documented of
-- it.
use lts_agent.Base.{
  ◌≡◌, refl, ap, ◌∙◌, Bool, true, false, Bytes, List, [], ◌∷◌, lit, subst, sym, if-ensures,
  if-cases,
}
use lts_agent.Go.Errors.{Result, ok, err, is_state_not_found}
use lts_agent.Client.Net.{Request}
use lts_agent.Client.{Client}
use lts_agent.Inventory.{Report, Core}
use lts_agent.Sync.Durable.{IsFileSystem, Stored, Stored-stays, load_state-Stored, register-Stored}
use lts_agent.Sync.Files.{Options, Dependencies, load_state}
use lts_agent.Sync.Identity.{IsState}
use lts_agent.Sync.Kept.{report_in-part}
use lts_agent.Sync.Quiet.{SparesReads, SparesNetwork, load_state-Keeps, report_in-Keeps}
use lts_agent.Sync.States.{register-IsState}
use lts_agent.Sync.Token.{StateDocument}
use lts_agent.Sync.{
  Outcome, operation, register, report_in, discard_token, enrolled, enroll, resume, sync,
  disabled_core,
}

-- What is documented of the calls of a cycle: looking at a file, at the clock or at the network
-- changes no file, and the removal of a file only that file.
pub record IsUndisturbed {W : Type 0} (client : Client W) (deps : Dependencies W)
    (fs : IsFileSystem deps) : Type 0 where
  pub read_file :
      (path name : Bytes) (w : W) → fs.file (deps.read_file path w).1 name ≡ fs.file w name
  pub lstat : (path name : Bytes) (w : W) → fs.file (deps.lstat path w).1 name ≡ fs.file w name
  pub now : (name : Bytes) (w : W) → fs.file (deps.now w).1 name ≡ fs.file w name
  pub send :
      (r : Request) (name : Bytes) (w : W) → fs.file (client.web.send r w).1 name ≡ fs.file w name
  pub remove :
      (path name : Bytes) (w : W)
      → ¬ (name ≡ path)
      → fs.file (deps.remove path w).1 name ≡ fs.file w name

-- One cycle for each report.
unfoldable pub cycles : {W : Type 0} → (Report → W → Outcome × W) → List Report → W → W
cycles run [] w = w
cycles run (report ∷ reports) w = cycles run reports (run report w).1

-- The cycle attempted a registration and ended with a registered node.
pub record HasEnrolled (core : Core) : Type 0 where
  pub attempted : core.registration.attempted ≡ true
  pub registered : core.registered ≡ true

-- The node is known under the id, and no registration was needed.
pub record IsKnown (node_id : Bytes) (core : Core) : Type 0 where
  pub not_needed : core.registration ≡ operation false (lit "not_needed")
  pub registered : core.registered ≡ true
  pub same_id : core.node_id ≡ node_id

not_both : {A : Type 0} (b : Bool) → b ≡ false → b ≡ true → A
not_both b off on = absurd (cc)

module _ {W : Type 0} (client : Client W) (options : Options) (deps : Dependencies W)
    (fs : IsFileSystem deps) (calm : IsUndisturbed client deps fs)
    (apart : ¬ (options.state_file ≡ options.enrollment_token_file)) where
  Stored-reads : (s : StateDocument) → SparesReads deps (Stored options deps fs s)
  Stored-reads s = record {
    read_file = λ path w. Stored-stays options deps fs s w _ (calm.read_file path _ w);
    lstat = λ path w. Stored-stays options deps fs s w _ (calm.lstat path _ w);
  }

  Stored-network : (s : StateDocument) → SparesNetwork client deps (Stored options deps fs s)
  Stored-network s = record {
    now = λ w. Stored-stays options deps fs s w _ (calm.now _ w);
    send = λ r w. Stored-stays options deps fs s w _ (calm.send r _ w);
  }

  -- The world holds the state of the node, which is valid.
  record Holds (s : StateDocument) (w : W) : Type 0 where
    pub stored : Stored options deps fs s w
    pub is_state : IsState s

  discard_token-Stored :
      (s : StateDocument) (w : W)
      → Stored options deps fs s w
      → Stored options deps fs s (discard_token client options deps w).1
  unfolding discard_token
  discard_token-Stored s w = Stored-stays options deps fs s w _ (calm.remove _ _ w apart)

  report_in-kept :
      {A : Type 0} (part : Core → A)
      → ((c : Core) (o : _) → part (record c { heartbeat = o }) ≡ part c)
      → ((c : Core) (o : _) → part (record c { desired_state = o }) ≡ part c)
      → (report : Report) (result : Core) (warnings : _) (state : StateDocument) (w : W)
      → part (report_in client options deps report result warnings state w).0.0 ≡ part result
  report_in-kept part beat seen = report_in-part part beat seen client options deps

  -- Cycles over a stored state.
  module _ (s : StateDocument) where
    resume-Holds :
        (report : Report) (loaded : Result StateDocument) (w : W)
        → loaded ≡ ok s
        → Stored options deps fs s w
        → Stored options deps fs s (resume client options deps report loaded w).1
    unfolding resume
    resume-Holds report (ok t) w h k =
        report_in-Keeps client options deps (Stored options deps fs s) (Stored-network s) report _ _
          t w k
    resume-Holds report (err e) w h k = absurd (cc)

    resume-IsKnown :
        (report : Report) (loaded : Result StateDocument) (w : W)
        → loaded ≡ ok s
        → IsKnown s.node_id (resume client options deps report loaded w).0.0
    unfolding resume
    resume-IsKnown report (ok t) w h =
        let same : t ≡ s = cc in
        record {
          not_needed =
              report_in-kept (λ c. c.registration) (λ _ _. refl) (λ _ _. refl) report _ _ t w;
          registered =
              report_in-kept (λ c. c.registered) (λ _ _. refl) (λ _ _. refl) report _ _ t w;
          same_id =
              report_in-kept (λ c. c.node_id) (λ _ _. refl) (λ _ _. refl) report _ _ t w
              ∙ ap (λ u. u.node_id) same;
        }
    resume-IsKnown report (err e) w h = absurd (cc)

    -- `sync` is `resume` behind `loadState`, for a Core that is enabled.
    sync-Holds :
        (report : Report) (w : W) → Holds s w → Holds s (sync client options deps report w).1
    unfolding sync
    sync-Holds report w h =
        let loaded = load_state-Stored options deps fs s w h.is_state h.stored in
        let still = load_state-Keeps options deps _ (Stored-reads s) w h.stored in
        if-ensures (λ (r : Outcome × W). Holds s r.1) options.enabled
          (record {
            stored = resume-Holds report (load_state options deps w).0 _ loaded still;
            is_state = h.is_state;
          })
          h

    cycles-Holds :
        (reports : List Report) (w : W)
        → Holds s w
        → Holds s (cycles (sync client options deps) reports w)
    unfolding cycles
    cycles-Holds [] w h = h
    cycles-Holds (report ∷ reports) w h = cycles-Holds reports _ (sync-Holds report w h)

    sync-IsKnown :
        (report : Report) (w : W)
        → options.enabled ≡ true
        → Holds s w
        → IsKnown s.node_id (sync client options deps report w).0.0
    unfolding sync
    sync-IsKnown report w on h =
        if-cases (λ (r : Outcome × W). IsKnown s.node_id r.0.0) options.enabled
          (λ _.
            resume-IsKnown report (load_state options deps w).0 _
              (load_state-Stored options deps fs s w h.is_state h.stored))
          (λ off. absurd (cc))

  -- What a cycle that enrolled leaves: the state whose id it reports.
  record Leaves (r : Outcome × W) : Type 0 where
    pub state : StateDocument
    pub holds : Holds state r.1
    pub same_id : r.0.0.node_id ≡ state.node_id

  enrolled-Leaves :
      (report : Report) (reply : Result StateDocument) (w : W)
      → ((s : StateDocument) → reply ≡ ok s → Holds s w)
      → HasEnrolled (enrolled client options deps report reply w).0.0
      → Leaves (enrolled client options deps report reply w)
  unfolding enrolled
  enrolled-Leaves report (err e) w k h = absurd (cc)
  enrolled-Leaves report (ok s) w k h =
      let now = k s refl in
      record {
        state = s;
        holds = record {
          stored =
              report_in-Keeps client options deps _ (Stored-network s) report _ _ s _
                (discard_token-Stored s w now.stored);
          is_state = now.is_state;
        };
        same_id = report_in-kept (λ c. c.node_id) (λ _ _. refl) (λ _ _. refl) report _ _ s _;
      }

  resume-Leaves :
      (report : Report) (loaded : Result StateDocument) (w : W)
      → HasEnrolled (resume client options deps report loaded w).0.0
      → Leaves (resume client options deps report loaded w)
  unfolding resume enroll
  resume-Leaves report (ok s) w h =
      not_both _
        (report_in-kept (λ c. c.registration.attempted) (λ _ _. refl) (λ _ _. refl) report _ _ s w)
        h.attempted
  resume-Leaves report (err e) w h =
      if-cases (λ r. HasEnrolled r.0.0 → Leaves r) (is_state_not_found e)
        (λ _. enrolled-Leaves report (register client options deps report w).0 _ (λ s got. record {
          stored = register-Stored client options deps fs report w s got;
          is_state = register-IsState client options deps report w s got;
        }))
        (λ _ k. absurd (cc)) h

  sync-Leaves :
      (report : Report) (w : W)
      → HasEnrolled (sync client options deps report w).0.0
      → (options.enabled ≡ true) × Leaves (sync client options deps report w)
  unfolding sync disabled_core
  sync-Leaves report w =
      if-cases (λ r. HasEnrolled r.0.0 → (options.enabled ≡ true) × Leaves r) options.enabled
        (λ on h. (on, resume-Leaves report (load_state options deps w).0 _ h)) (λ _ h. absurd (cc))

  -- A node enrolls once: over a filesystem that does what is documented of it, and with the state
  -- and the token in different files, after a cycle that registered the node and any number of
  -- further cycles, whatever Core answered them, the next cycle needs no registration, and reports
  -- the id under which the node was registered.
  pub sync_enrolls_once :
      (report later : Report) (reports : List Report) (w : W)
      → HasEnrolled (sync client options deps report w).0.0
      → IsKnown
          (sync client options deps report w).0.0.node_id
          (sync client options deps later
            (cycles (sync client options deps) reports (sync client options deps report w).1)).0.0
  sync_enrolls_once report later reports w h =
      let (on, left) = sync-Leaves report w h in
      subst
        (λ n.
          IsKnown n
            (sync client options deps later (
              cycles (sync client options deps) reports (sync client options deps report w).1)).0.0)
        (sym left.same_id)
        (sync-IsKnown left.state later _ on (cycles-Holds left.state reports _ left.holds))
