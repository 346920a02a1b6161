-- ===== src/System.antt =====
-- internal/system/system.go: the host and its operating system.
pub mod OsRelease
pub mod Assignments
pub mod Sources
mod Tests
use lts_agent.Base.{
  ℕ, ◌+◌, Bool, true, false, not, ◌||◌, Bytes, List, [], ◌∷◌, ◌++◌, Option, none, some, lit, ◌==◌,
  same, if◌then◌else◌, is_empty,
}
use lts_agent.Go.Errors.{Error, text, wrap, error_text, show_failure, Result, ok, err}
use lts_agent.Go.Action.{Action}
use lts_agent.Go.Numbers.{show_nat}
use lts_agent.Go.Filepath.{is_abs, clean_rooted, join_rooted}
use lts_agent.Go.Strings.{has_prefix, trim_space, split, cut, cut_at, cut_last, join}
use lts_agent.Go.Maps.{Map, put, get}
use lts_agent.Go.Unquote.{unquote}
use lts_agent.Inventory.{System, Warning}
use lts_agent.System.OsRelease.{parse_assignments}

abbrev pub default_os_release_path : Bytes
default_os_release_path = lit "/etc/os-release"

abbrev pub default_kernel_path : Bytes
default_kernel_path = lit "/proc/sys/kernel/osrelease"

abbrev pub default_timezone_path : Bytes
default_timezone_path = lit "/etc/timezone"

abbrev pub default_localtime_path : Bytes
default_localtime_path = lit "/etc/localtime"

abbrev pub zoneinfo_marker : Bytes
zoneinfo_marker = lit "/zoneinfo/"

-- Over a state `W` of the outside world. `run_command` is given the command and its arguments, and
-- `location` the name of the location, if there is one.
pub record Dependencies (W : Type 0) : Type 0 where
  pub read_file : Bytes → Action W Bytes
  pub readlink : Bytes → Action W Bytes
  pub hostname : Action W Bytes
  pub run_command : Bytes → List Bytes → Action W Bytes
  pub architecture : Bytes
  pub location : W → Option Bytes × W

-- `Result`.
pub record SystemResult : Type 0 where
  pub hostname : Bytes
  pub system : System

pub record Collector (W : Type 0) : Type 0 where
  pub deps : Dependencies W

unfoldable pub new_collector_with_dependencies : {W : Type 0} → Dependencies W → Collector W
new_collector_with_dependencies deps = record { deps = deps }

-- `boundaries` holds the functions of `os` and `time`, `runCommand` and `runtime.GOARCH`.
unfoldable pub new_collector : {W : Type 0} → Dependencies W → Collector W
unfolding new_collector_with_dependencies
new_collector boundaries = new_collector_with_dependencies boundaries

-- `collectOS` behind the reading of the file.
name_of : Map × List Bytes → Result Bytes
name_of (values, warnings) =
    let value = get (lit "PRETTY_NAME") values in
    let joined =
      trim_space (join (lit " ") (get (lit "NAME") values ∷ get (lit "VERSION") values ∷ [])) in
    if not (is_empty value)
    then ok value
    else if not (is_empty joined)
    then ok joined
    else if not (is_empty warnings)
    then err
        (text (lit "parse " ++ (default_os_release_path ++ (lit ": " ++ join (lit "; ") warnings))))
    else err (text (default_os_release_path ++ lit " contains no usable operating-system name"))

-- What `strings.TrimSpace` leaves of a result, nothing of a failure.
abbrev pub trimmed : Result Bytes → Bytes
trimmed (err e) = []
trimmed (ok s) = trim_space s

unfoldable pub normalize_architecture : Bytes → Bytes
normalize_architecture architecture =
    let name = trim_space architecture in
    if same name (lit "amd64")
    then lit "x86_64"
    else if same name (lit "arm64")
    then lit "aarch64"
    else if same name (lit "386")
    then lit "i386"
    else name

-- The zone behind the marker.
named_zone : Option (Bytes × Bytes) → Option Bytes
named_zone none = none
named_zone (some (before, zone)) = if is_empty zone then none else some zone

-- The zone that the target of the link `/etc/localtime` names.
zone_of : Bytes → Option Bytes
unfolding named_zone
zone_of target = named_zone (
    cut_at zoneinfo_marker
      (if is_abs target then target else clean_rooted (join_rooted (lit "/etc") target)))

linked_zone : Result Bytes → Option Bytes
unfolding zone_of
linked_zone (err e) = none
linked_zone (ok target) = zone_of target

-- The zone of the runtime's location.
located_zone : Option Bytes → Option Bytes
located_zone none = none
located_zone (some name) =
    if is_empty name then none else if same name (lit "Local") then none else some name

module _ {W : Type 0} (deps : Dependencies W) where
  unfoldable pub collect_os : Action W Bytes
  unfolding name_of
  collect_os w =
      let (contents, w') = deps.read_file default_os_release_path w in
      (
        elim contents [
          | err e ↦ err (wrap (lit "read " ++ (default_os_release_path ++ lit ": ")) e)
          | ok s ↦ name_of (parse_assignments s)
        ],
        w',
      )

  unfoldable pub collect_kernel : Action W Bytes
  collect_kernel w =
      let (file, w1) = deps.read_file default_kernel_path w in
      let (output, w2) = deps.run_command (lit "uname") (lit "-r" ∷ []) w1 in
      if not (is_empty (trimmed file))
      then (ok (trimmed file), w1)
      else if not (is_empty (trimmed output))
      then (ok (trimmed output), w2)
      else (
        err (
            text (
              lit "read "
              ++ (default_kernel_path
                  ++ (lit ": "
                      ++ (show_failure file ++ (lit "; run uname -r: " ++ show_failure output)))))),
        w2,
      )

  -- `collectTimezone` behind the link, which gave no zone.
  fall_back : Result Bytes → Result Bytes → Action W Bytes
  unfolding located_zone
  fall_back file link w =
      let (current, w') = deps.location w in
      (
        elim (located_zone current) [
          | some name ↦ ok name
          | none ↦ err (
              text (
                lit "read "
                ++ (default_timezone_path
                    ++ (lit ": "
                        ++ (show_failure file
                            ++ (lit "; resolve "
                                ++ (default_localtime_path
                                    ++ (lit ": "
                                        ++ (show_failure link
                                            ++ lit "; runtime location unavailable")))))))))
        ],
        w',
      )

  -- `collectTimezone` on the target of the link.
  resolve : Result Bytes → Result Bytes → Action W Bytes
  unfolding linked_zone fall_back
  resolve file link w = elim (linked_zone link) [
    | some zone ↦ (ok zone, w)
    | none ↦ fall_back file link w
  ]

  unfoldable pub collect_timezone : Action W Bytes
  unfolding resolve
  collect_timezone w =
      let (file, w1) = deps.read_file default_timezone_path w in
      let (link, w2) = deps.readlink default_localtime_path w1 in
      if not (is_empty (trimmed file)) then (ok (trimmed file), w1) else resolve file link w2

abbrev pub warning : Bytes → Error → Warning
warning source e = record { source = source; message = error_text e }

-- The value of a source, empty on a failure, and the warning about the failure.
abbrev pub value_of : Result Bytes → Bytes
value_of (ok s) = s
value_of (err e) = []

abbrev pub warnings_of : Bytes → Result Bytes → List Warning
warnings_of source (ok s) = []
warnings_of source (err e) = warning source e ∷ []

-- The architecture as a source that fails when it is empty.
abbrev pub architecture_of : Bytes → Result Bytes
architecture_of name =
    if is_empty name then err (text (lit "architecture is unavailable")) else ok name

unfoldable pub collect_system : {W : Type 0} → Collector W → W → (SystemResult × List Warning) × W
collect_system c w =
    let (host, w1) = c.deps.hostname w in
    let (os, w2) = collect_os c.deps w1 in
    let (kernel, w3) = collect_kernel c.deps w2 in
    let architecture = normalize_architecture c.deps.architecture in
    let (timezone, w4) = collect_timezone c.deps w3 in
    (
      (
        record {
          hostname = trimmed host;
          system = record {
            os = value_of os;
            kernel = value_of kernel;
            architecture = architecture;
            timezone = value_of timezone;
          };
        },
        warnings_of (lit "hostname") host
            ++ (warnings_of (lit "os") os
                ++ (warnings_of (lit "kernel") kernel
                    ++ (warnings_of (lit "architecture") (architecture_of architecture)
                        ++ warnings_of (lit "timezone") timezone))),
      ),
      w4,
    )
