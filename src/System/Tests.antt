-- ===== src/System/Tests.antt =====
-- A small host of internal/system/system.go, and instances of the theorems.
use lts_agent.Base.{ℕ, suc, ◌≡◌, refl, [], none, lit, same, is_empty, if◌then◌else◌}
use lts_agent.Go.Errors.{ok, err, text}
use lts_agent.Go.Filepath.{is_abs, clean_rooted, join_rooted}
use lts_agent.Go.Maps.{get}
use lts_agent.Go.Strings.{trim_space, split, cut, cut_at, cut_last, has_prefix, join}
use lts_agent.Go.Unquote.{unquote}
use lts_agent.Lbi.{parse_release}
use lts_agent.System.OsRelease.{parse_assignments, parse_assignment_value}
use lts_agent.System.{
  Dependencies, Collector, collect_system, collect_os, collect_kernel, collect_timezone,
  normalize_architecture, new_collector, new_collector_with_dependencies,
}
use lts_agent.System.Assignments.{parse_release-parse_assignments}
use lts_agent.System.Sources.{warned, collect_system-warned}

-- The host counts the commands that are run.
abbrev deps : Dependencies ℕ
deps = record {
  read_file = λ path w.
      if same path (lit "/etc/os-release")
      then (ok (lit "NAME=Debian\nVERSION='12'\n"), w)
      else (err (text (lit "no file")), w);
  readlink = λ path w. (ok (lit "../usr/share/zoneinfo/Europe/Berlin"), w);
  hostname = λ w. (ok (lit "node\n"), w);
  run_command = λ command arguments w. (err (text (lit "no command")), suc w);
  architecture = lit "amd64";
  location = λ w. (none, w);
}

abbrev collector : Collector ℕ
collector = record { deps = deps }

-- The time zone is the target of the link, and the kernel is missing.
collect_system-host : (collect_system (new_collector deps) 0).0.0 ≡ record {
  hostname = lit "node";
  system = record {
    os = lit "Debian 12";
    kernel = [];
    architecture = lit "x86_64";
    timezone = lit "Europe/Berlin";
  };
}
unfolding collect_system new_collector new_collector_with_dependencies collect_os collect_kernel
    collect_timezone parse_assignments parse_assignment_value normalize_architecture get trim_space
    split cut cut_at cut_last has_prefix join unquote same lit is_abs clean_rooted join_rooted
collect_system-host = refl

collect_system-warned_example :
    (is_empty (collect_system collector 0).0.0.system.os
      ≡ warned (lit "os") (collect_system collector 0).0.1)
    × (is_empty (collect_system collector 0).0.0.system.kernel
        ≡ warned (lit "kernel") (collect_system collector 0).0.1)
    × (is_empty (collect_system collector 0).0.0.system.architecture
        ≡ warned (lit "architecture") (collect_system collector 0).0.1)
    × (is_empty (collect_system collector 0).0.0.system.timezone
        ≡ warned (lit "timezone") (collect_system collector 0).0.1)
collect_system-warned_example = collect_system-warned collector 0

parse_release-parse_assignments_example :
    parse_release (lit "A='b'\nC") ≡ parse_assignments (lit "A='b'\nC")
parse_release-parse_assignments_example = parse_release-parse_assignments (lit "A='b'\nC")
