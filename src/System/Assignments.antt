-- ===== src/System/Assignments.antt =====
-- `parseAssignments` of internal/system/system.go and `parseRelease` of internal/lbi/lbi.go, two
-- parsers of the same format.
use lts_agent.Base.{
  ℕ, ◌+◌, ◌≡◌, refl, Bytes, List, [], ◌∷◌, Option, none, some, arith, Option-cases, inl, inr,
}
use lts_agent.Go.Errors.{Result-cases}
use lts_agent.Go.Maps.{Map}
use lts_agent.Go.Strings.{trim_space, split, cut, cut_last}
use lts_agent.Lbi.{parse_value, parse_pair, parse_line, parse_lines, parse_release}
use lts_agent.System.OsRelease.{parse_assignment_value, assign, assign_lines, parse_assignments}

parse_value-parse_assignment_value : (s : Bytes) → parse_value s ≡ parse_assignment_value s
unfolding parse_value parse_assignment_value
parse_value-parse_assignment_value [] = refl
parse_value-parse_assignment_value (c ∷ s) = elim (Option-cases (cut_last b'\'' s)) [
  | inl e ↦ ground arith
  | inr (v, e) ↦ ground arith
]

parse_pair-assign :
    (number : ℕ) (pair : Option (Bytes × Bytes)) (values : Map) (warnings : List Bytes)
    → parse_pair number pair (values, warnings) ≡ assign number pair values warnings
unfolding parse_pair assign
parse_pair-assign number none values warnings = refl
parse_pair-assign number (some (key, raw)) values warnings =
    elim (Result-cases (parse_assignment_value (trim_space raw))) [
      | inl (v, e) ↦ ground (arith, parse_value-parse_assignment_value (trim_space raw))
      | inr (f, e) ↦ ground (arith, parse_value-parse_assignment_value (trim_space raw))
    ]

parse_lines-assign_lines :
    (number : ℕ) (lines : List Bytes) (values : Map) (warnings : List Bytes)
    → parse_lines number lines (values, warnings) ≡ assign_lines number lines values warnings
unfolding parse_lines assign_lines parse_line
parse_lines-assign_lines number [] values warnings = refl
parse_lines-assign_lines number (raw ∷ lines) values warnings =
    let pair = cut b'=' (trim_space raw) in
    let next = assign number pair values warnings in
    ground (
      arith,
      parse_pair-assign number pair values warnings,
      parse_lines-assign_lines (number + 1) lines values warnings,
      parse_lines-assign_lines (number + 1) lines next.0 next.1,
    )

-- The parser of the release file and that of `/etc/os-release` give the same values and the same
-- warnings for every text.
pub parse_release-parse_assignments :
    (contents : Bytes) → parse_release contents ≡ parse_assignments contents
unfolding parse_release parse_assignments
parse_release-parse_assignments contents = parse_lines-assign_lines 1 (split b'\n' contents) [] []
