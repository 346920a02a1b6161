-- ===== src/Main.antt =====
-- cmd/lts-agent/main.go: the parts of the program put together.
pub mod Published
pub mod Startup
mod Tests
use lts_agent.Base.{ℕ, ◌+◌, ◌*◌, true, Bytes, ◌++◌, some, lit}
use lts_agent.Go.Errors.{Result}
use lts_agent.Go.Action.{Action, pure, ◌>>=◌}
use lts_agent.Go.Numbers.{ℤ, pos, negsuc, of_negative}
use lts_agent.Inventory.{Report}
use lts_agent.Config.{load, default_path, Config}
use lts_agent.Client.Net.{Web, Request, Response}
use lts_agent.Client.Options.{Options}
use lts_agent.Client.Setup.{Trust, Transport, new_client}
use lts_agent.Client.{Client}
use lts_agent.Check
use lts_agent.Lbi
use lts_agent.Role
use lts_agent.System
use lts_agent.Sync.Files
use lts_agent.Sync.{synchronizer}
use lts_agent.Agent.{version, new_agent, collect_report}
use lts_agent.App.{App, CoreSynchronizer, Finished}
use lts_agent.App.Run.{run}

-- What the program takes from outside this repository: the file system, processes, the network,
-- certificates and the clock, over a state `W`. Of the dependencies only the functions count.
pub record Outside (W Pool : Type 0) : Type 0 where
  pub stdout : Bytes → Action W (Unit {0})
  pub now : W → ℕ × W
  pub os_read_file : W → Bytes → Result Bytes
  pub system : System.Dependencies W
  pub checks : Check.Dependencies W
  pub sync : Files.Dependencies W
  pub web : Web W
  pub send : Transport Pool → Request → W → Result Response × W
  pub trust : Trust W Pool

-- A number that is not negative: a loaded configuration has no other limit.
abbrev pub natural : ℤ → ℕ
natural (pos n) = n
natural (negsuc n) = 0

-- `time.Duration(n) * time.Second`, which a loaded configuration keeps within 64 bits.
abbrev pub seconds : ℤ → ℤ
seconds (pos n) = pos (n * 1000000000)
seconds (negsuc n) = of_negative ((n + 1) * 1000000000)

abbrev pub check_options : Config → Check.Options
check_options c = record {
  validation_path = c.checks.validation_path;
  health_path = c.checks.health_path;
  timeout = natural c.checks.timeout_seconds * Check.second;
  output_limit = natural c.checks.max_output_bytes;
}

abbrev pub client_options : Config → Options
client_options c = record {
  base_url = c.core.base_url;
  timeout = seconds c.core.request_timeout_seconds;
  ca_file = c.core.ca_file;
  user_agent = lit "lts-agent/" ++ version;
}

abbrev pub sync_options : Config → Files.Options
sync_options c = record {
  enabled = true;
  agent_version = version;
  machine_id_path = lit "";
  enrollment_token_file = c.core.enrollment_token_file;
  state_file = c.core.state_file;
}

module _ {W Pool : Type 0} (outside : Outside W Pool) where
  -- The functions `NewRunner` and `NewCoreSynchronizer`.
  unfoldable pub runner : Config → W → Report × W
  runner c = collect_report (
      new_agent (System.collect_system (System.new_collector outside.system))
        (λ w. (Lbi.collect_lbi (Lbi.new_collector (outside.os_read_file w)), w))
        (λ w. (Role.collect_assignment (Role.new_collector (outside.os_read_file w)), w))
        (Check.collect_checks (Check.new_collector_with_options outside.checks (check_options c))))

  -- `Sync` as the application calls it: its pointers are not nil.
  abbrev pub as_synchronizer : Config → Client W → CoreSynchronizer W
  as_synchronizer c client report w =
      let ((core, desired_state, warnings), w') =
        synchronizer client (sync_options c) outside.sync report w in
      ((some core, desired_state, warnings), w')

  unfoldable pub core_synchronizer : Config → Action W (CoreSynchronizer W)
  core_synchronizer c = do
    client ← new_client outside.web outside.send outside.trust (client_options c)
    pure (as_synchronizer c client)

  abbrev pub application : App W
  application = record {
    stdout = outside.stdout;
    load_config = λ w. (load outside.web.parse_url (outside.os_read_file w), w);
    new_runner = runner;
    new_core_synchronizer = core_synchronizer;
    now = outside.now;
    config_path = default_path;
  }

  -- `main`: the exit code and what was logged.
  unfoldable pub main : W → Finished W
  main = run application
