-- ===== src/Sync/Enabled.antt =====
-- The field `Enabled` of what `Sync` of internal/coresync/sync.go returns.
use lts_agent.Base.{◌≡◌, refl, Bool, true, false, if-ensures, if◌then◌else◌}
use lts_agent.Go.Errors.{Result, ok, err, is_state_not_found}
use lts_agent.Client.{Client}
use lts_agent.Inventory.{Report}
use lts_agent.Sync.Files.{Options, Dependencies}
use lts_agent.Sync.Kept.{report_in-part}
use lts_agent.Sync.Token.{StateDocument}
use lts_agent.Sync.{Outcome, enrolled, enroll, resume, sync, register, disabled_core}

branch-enabled :
    {W : Type 0} (b : Bool) (x y : Outcome × W)
    → x.0.0.enabled ≡ true
    → y.0.0.enabled ≡ false
    → (if b then x else y).0.0.enabled ≡ b
branch-enabled true x y h k = h
branch-enabled false x y h k = k

module _ {W : Type 0} (client : Client W) (options : Options) (deps : Dependencies W) where
  enrolled-enabled :
      (report : Report) (reply : Result StateDocument) (w : W)
      → (enrolled client options deps report reply w).0.0.enabled ≡ true
  unfolding enrolled
  enrolled-enabled report (err e) w = refl
  enrolled-enabled report (ok state) w =
      report_in-part (λ c. c.enabled) (λ _ _. refl) (λ _ _. refl) client options deps report _ _
        state _

  resume-enabled :
      (report : Report) (loaded : Result StateDocument) (w : W)
      → (resume client options deps report loaded w).0.0.enabled ≡ true
  unfolding resume enroll
  resume-enabled report (ok state) w =
      report_in-part (λ c. c.enabled) (λ _ _. refl) (λ _ _. refl) client options deps report _ _
        state w
  resume-enabled report (err e) w =
      if-ensures (λ (r : Outcome × W). r.0.0.enabled ≡ true) (is_state_not_found e)
        (enrolled-enabled report (register client options deps report w).0 _) refl

  -- `Sync` says that Core is enabled exactly if the options do.
  pub sync-enabled :
      (report : Report) (w : W) → (sync client options deps report w).0.0.enabled ≡ options.enabled
  unfolding sync disabled_core
  sync-enabled report w = branch-enabled options.enabled _ _ (resume-enabled report _ _) refl
