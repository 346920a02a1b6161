-- ===== src/Lbi.antt =====
-- internal/lbi/lbi.go: the metadata in the release file of the base image.
pub mod RoundTrip
mod Tests
use lts_agent.Base.{
  ℕ, ◌+◌, Bool, true, false, Bytes, List, [], ◌∷◌, ◌++◌, Option, none, some, lit, map, ◌==◌,
  if◌then◌else◌, is_empty,
}
use lts_agent.Go.Errors.{Error, text, error_text, Result, ok, err}
use lts_agent.Go.Numbers.{show_nat}
use lts_agent.Go.Strings.{has_prefix, trim_space, split, cut, cut_last}
use lts_agent.Go.Maps.{Map, put, get}
use lts_agent.Go.Unquote.{unquote}
use lts_agent.Inventory.{Lbi, Warning}

abbrev pub default_release_path : Bytes
default_release_path = lit "/etc/lbi-release"

pub record Collector : Type 0 where
  pub path : Bytes
  pub read_file : Bytes → Result Bytes

unfoldable pub new_collector_with_dependencies : Bytes → (Bytes → Result Bytes) → Collector
new_collector_with_dependencies path read_file = record { path = path; read_file = read_file }

-- `os_read_file` is `os.ReadFile`.
unfoldable pub new_collector : (Bytes → Result Bytes) → Collector
unfolding new_collector_with_dependencies
new_collector os_read_file = new_collector_with_dependencies default_release_path os_read_file

-- A value behind its opening single quote.
single_quoted : Bytes → Result Bytes
single_quoted s = elim (cut_last b'\'' s) [
  | some value ↦ ok value
  | none ↦ err (text (lit "unterminated single-quoted value"))
]

-- A value behind its opening double quote.
double_quoted : Bytes → Result Bytes
double_quoted s = elim (unquote s) [
  | some value ↦ ok value
  | none ↦ err (text (lit "invalid double-quoted value: invalid syntax"))
]

unfoldable pub parse_value : Bytes → Result Bytes
unfolding single_quoted double_quoted
parse_value [] = ok []
parse_value (c ∷ s) =
    if c == b'\'' then single_quoted s else if c == b'"' then double_quoted s else ok (c ∷ s)

-- The values and the warnings so far.
abbrev pub Parsed : Type 0
Parsed = Map × List Bytes

abbrev warn : Bytes → Parsed → Parsed
warn message (values, warnings) = (values, warnings ++ (message ∷ []))

-- A warning about a line.
abbrev about_line : ℕ → Bytes → Bytes
about_line number rest = lit "line " ++ (show_nat number ++ rest)

-- The end of the loop's body, on the result of `parseValue`.
unfoldable pub store : ℕ → Bytes → Result Bytes → Parsed → Parsed
store number key (ok value) (values, warnings) = (put key value values, warnings)
store number key (err e) p =
    warn (about_line number (lit " (" ++ (key ++ (lit "): " ++ error_text e)))) p

-- The loop's body from `strings.Cut` on. Where no `=` was found, the line counts as a key.
unfoldable pub parse_pair : ℕ → Option (Bytes × Bytes) → Parsed → Parsed
unfolding store
parse_pair number none p = warn (about_line number (lit ": expected KEY=VALUE")) p
parse_pair number (some (before, raw_value)) p =
    let key = trim_space before in
    if is_empty key
    then warn (about_line number (lit ": expected KEY=VALUE")) p
    else store number key (parse_value (trim_space raw_value)) p

-- The body of the loop, on the number of the line.
unfoldable pub parse_line : ℕ → Bytes → Parsed → Parsed
unfolding parse_pair
parse_line number raw_line p =
    let line = trim_space raw_line in
    if is_empty line
    then p
    else if has_prefix (lit "#") line
    then p
    else parse_pair number (cut b'=' line) p

unfoldable pub parse_lines : ℕ → List Bytes → Parsed → Parsed
parse_lines number [] p = p
parse_lines number (line ∷ lines) p = parse_lines (number + 1) lines (parse_line number line p)

unfoldable pub parse_release : Bytes → Parsed
unfolding parse_lines parse_line
parse_release contents = parse_lines 1 (split b'\n' contents) ([], [])

abbrev pub lbi_warning : Bytes → Warning
lbi_warning message = record { source = lit "lbi"; message = message }

-- `Collect` behind `parseRelease`.
metadata : Map → Lbi
metadata values = record {
  available = true;
  name = get (lit "LBI_NAME") values;
  short = get (lit "LBI_SHORT") values;
  version = get (lit "LBI_VERSION") values;
  build = get (lit "LBI_BUILD") values;
  base_os = get (lit "BASE_OS") values;
  maintainer = get (lit "MAINTAINER") values;
}

-- `inventory.LBI{Available: false}`.
abbrev pub no_metadata : Lbi
no_metadata = record {
  available = false;
  name = [];
  short = [];
  version = [];
  build = [];
  base_os = [];
  maintainer = [];
}

-- `Collect` on the result of `readFile`.
of_file : Bytes → Result Bytes → Lbi × List Warning
unfolding metadata
of_file path (err e) =
    (no_metadata, lbi_warning (lit "read " ++ (path ++ (lit ": " ++ error_text e))) ∷ [])
of_file path (ok contents) =
    let (values, warnings) = parse_release contents in (metadata values, map lbi_warning warnings)

unfoldable pub collect_lbi : Collector → Lbi × List Warning
unfolding of_file
collect_lbi c = of_file c.path (c.read_file c.path)
