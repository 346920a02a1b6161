-- ===== src/Agent.antt =====
-- internal/agent/agent.go: the collection of the whole report.
pub mod Quiet
pub mod Output
mod Tests
use lts_agent.Base.{
  ◌≡◌, refl, ◌∙◌, ap, Bool, true, false, Bytes, List, [], ◌∷◌, ◌++◌, Option, none, some, lit,
  append_assoc,
}
use lts_agent.Go.Numbers.{pos}
use lts_agent.Inventory.{Report, Lbi, Assignment, Checks, Warning, DesiredState}
use lts_agent.System.{SystemResult}

abbrev pub version : Bytes
version = lit "0.8.0"

-- The collectors, over a state `W` of the outside world.
pub record Agent (W : Type 0) : Type 0 where
  pub system : W → (SystemResult × List Warning) × W
  pub lbi : W → (Lbi × List Warning) × W
  pub assignment : W → (Assignment × List Warning) × W
  pub checks : W → (Checks × List Warning) × W

unfoldable pub new_agent :
    {W : Type 0}
    → (W → (SystemResult × List Warning) × W)
    → (W → (Lbi × List Warning) × W)
    → (W → (Assignment × List Warning) × W)
    → (W → (Checks × List Warning) × W)
    → Agent W
new_agent system lbi assignment checks = record {
  system = system;
  lbi = lbi;
  assignment = assignment;
  checks = checks;
}

-- `if slice == nil { slice = []string{} }`.
abbrev pub filled : Option (List Bytes) → Option (List Bytes)
filled none = some []
filled (some l) = some l

unfoldable pub collect_report : {W : Type 0} → Agent W → W → Report × W
collect_report a w =
    let ((system_result, system_warnings), w1) = a.system w in
    let ((lbi_result, lbi_warnings), w2) = a.lbi w1 in
    let ((assignment_result, assignment_warnings), w3) = a.assignment w2 in
    let ((check_results, check_warnings), w4) = a.checks w3 in
    (
      record {
        agent = record { version = version };
        node = record { hostname = system_result.hostname };
        lbi = lbi_result;
        system = system_result.system;
        assignment = record assignment_result {
          roles = filled assignment_result.roles;
          capabilities = filled assignment_result.capabilities;
        };
        checks = check_results;
        desired_state = some (record {
          available = false;
          schema_version = pos 0;
          revision = [];
          roles = some [];
          capabilities = some [];
        });
        core = none;
        warnings = ((system_warnings ++ lbi_warnings) ++ assignment_warnings) ++ check_warnings;
      },
      w4,
    )
