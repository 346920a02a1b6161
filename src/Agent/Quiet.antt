-- ===== src/Agent/Quiet.antt =====
-- What a report without warnings says, in internal/agent/agent.go with the collectors of
-- internal/role/role.go and internal/check/check.go.
use lts_agent.Base.{
  ◌≡◌, sym, subst, true, List, [], none, some, lit, arith, inl, inr, ◌⊎◌, Bool-cases, append-empty,
}
use lts_agent.Go.Numbers.{ℤ, pos, int_eq}
use lts_agent.Inventory.{Lbi, Checks, Warning}
use lts_agent.Role
use lts_agent.Role.{collect_assignment}
use lts_agent.Role.Sound.{collect_assignment_warns}
use lts_agent.Check
use lts_agent.Check.{collect_checks, health_status, validation_status, run}
use lts_agent.Check.Status.{run-quiet}
use lts_agent.System.{SystemResult}
use lts_agent.Agent.{Agent, collect_report}

-- Both scripts have exited normally, each with a code of its protocol.
pub record AllChecked (checks : Checks) : Type 0 where
  pub validated :
      (checks.validation.status ≡ lit "passed") ⊎ (checks.validation.status ≡ lit "failed")
  pub healthy :
      (checks.health.status ≡ lit "healthy")
      ⊎ (checks.health.status ≡ lit "degraded")
      ⊎ (checks.health.status ≡ lit "critical")
  pub validation_code : (code : ℤ) × (checks.validation.exit_code ≡ some code)
  pub health_code : (code : ℤ) × (checks.health.exit_code ≡ some code)

validation_status-cases :
    (code : ℤ)
    → ((validation_status code).0 ≡ lit "passed") ⊎ ((validation_status code).0 ≡ lit "failed")
unfolding validation_status
validation_status-cases code = elim (Bool-cases (int_eq code (pos 0))) [
  | inl e ↦ inl (ground arith)
  | inr e ↦ inr (ground arith)
]

health_status-cases :
    (code : ℤ)
    → (health_status code).1 ≡ none
    → ((health_status code).0 ≡ lit "healthy")
      ⊎ ((health_status code).0 ≡ lit "degraded")
      ⊎ ((health_status code).0 ≡ lit "critical")
unfolding health_status
health_status-cases code h = elim (Bool-cases (int_eq code (pos 0))) [
  | inl e ↦ inl (ground arith)
  | inr e ↦ elim (Bool-cases (int_eq code (pos 1))) [
    | inl f ↦ inr (inl (ground arith))
    | inr f ↦ inr (inr (ground arith))
  ]
]

module _ {W : Type 0} (checks : Check.Collector W) where
  collect_checks-AllChecked :
      (w : W) → (collect_checks checks w).0.1 ≡ [] → AllChecked (collect_checks checks w).0.0
  unfolding collect_checks
  collect_checks-AllChecked w h =
      let (v, q) = append-empty _ _ h in
      let (vcode, vexit, vstatus, _) =
        run-quiet checks (lit "validation") checks.deps.validation_path validation_status w v in
      let (hcode, hexit, hstatus, known) =
        run-quiet checks (lit "health") checks.deps.health_path health_status _ q in
      record {
        validated =
            subst (λ s. (s ≡ lit "passed") ⊎ (s ≡ lit "failed")) (sym vstatus)
              (validation_status-cases vcode);
        healthy =
            subst (λ s. (s ≡ lit "healthy") ⊎ (s ≡ lit "degraded") ⊎ (s ≡ lit "critical"))
              (sym hstatus) (health_status-cases hcode known);
        validation_code = (vcode, vexit);
        health_code = (hcode, hexit);
      }

collect_assignment-available :
    (c : Role.Collector) → (collect_assignment c).1 ≡ [] → (collect_assignment c).0.available ≡ true
collect_assignment-available c h = elim (Bool-cases (collect_assignment c).0.available) [
  | inl shown ↦ shown
  | inr hidden ↦ let (m, e) = collect_assignment_warns c hidden in absurd (cc)
]

module _ {W : Type 0} (system : W → (SystemResult × List Warning) × W)
    (lbi : W → (Lbi × List Warning) × W) (role : Role.Collector) (checks : Check.Collector W) where
  -- The agent with the collectors of the assignment and of the checks.
  abbrev pub agent : Agent W
  agent = record {
    system = system;
    lbi = lbi;
    assignment = λ w. (collect_assignment role, w);
    checks = collect_checks checks;
  }

  -- Whatever the other collectors do, a report without warnings has an available assignment, and
  -- both checks have an exit code and a status of their script's protocol.
  pub collect_report-AllChecked :
      (w : W)
      → (collect_report agent w).0.warnings ≡ []
      → ((collect_report agent w).0.assignment.available ≡ true)
        × AllChecked (collect_report agent w).0.checks
  unfolding collect_report
  collect_report-AllChecked w h =
      let (rest, checked) = append-empty _ _ h in
      let (_, assigned) = append-empty _ _ rest in
      (collect_assignment-available role assigned, collect_checks-AllChecked checks _ checked)
