-- ===== src/System/OsRelease.antt =====
-- `parseAssignments` of internal/system/system.go: the assignments of `/etc/os-release`.
use lts_agent.Base.{
  ℕ, ◌+◌, true, false, ◌||◌, Bytes, List, [], ◌∷◌, ◌++◌, Option, none, some, lit, ◌==◌,
  if◌then◌else◌, is_empty,
}
use lts_agent.Go.Errors.{text, error_text, Result, ok, err}
use lts_agent.Go.Numbers.{show_nat}
use lts_agent.Go.Strings.{has_prefix, trim_space, split, cut, cut_last}
use lts_agent.Go.Maps.{Map, put}
use lts_agent.Go.Unquote.{unquote}

unfoldable pub parse_assignment_value : Bytes → Result Bytes
parse_assignment_value [] = ok []
parse_assignment_value (c ∷ s) =
    if c == b'\''
    then elim (cut_last b'\'' s) [
      | none ↦ err (text (lit "unterminated single-quoted value"))
      | some value ↦ ok value
    ]
    else if c == b'"'
    then elim (unquote s) [
      | none ↦ err (text (lit "invalid double-quoted value: invalid syntax"))
      | some value ↦ ok value
    ]
    else ok (c ∷ s)

-- One line that is neither blank nor a comment, cut at its `=`; the result stands behind the
-- values and the warnings so far.
unfoldable pub assign : ℕ → Option (Bytes × Bytes) → Map → List Bytes → Map × List Bytes
assign number none values warnings =
    (values, warnings ++ ((lit "line " ++ (show_nat number ++ lit ": expected KEY=VALUE")) ∷ []))
assign number (some (key, raw_value)) values warnings =
    if is_empty (trim_space key)
    then (
      values,
      warnings ++ ((lit "line " ++ (show_nat number ++ lit ": expected KEY=VALUE")) ∷ []),
    )
    else elim (parse_assignment_value (trim_space raw_value)) [
      | err e ↦ (
        values,
        warnings
            ++ ((lit "line "
                  ++ (show_nat number
                      ++ (lit " (" ++ (trim_space key ++ (lit "): " ++ error_text e)))))
                ∷ []),
      )
      | ok value ↦ (put (trim_space key) value values, warnings)
    ]

-- The loop over the lines, on the number of the next line.
unfoldable pub assign_lines : ℕ → List Bytes → Map → List Bytes → Map × List Bytes
unfolding assign
assign_lines number [] values warnings = (values, warnings)
assign_lines number (raw_line ∷ lines) values warnings =
    let line = trim_space raw_line in
    let next = assign number (cut b'=' line) values warnings in
    elim (is_empty line || has_prefix (lit "#") line) [
      | true ↦ assign_lines (number + 1) lines values warnings
      | false ↦ assign_lines (number + 1) lines next.0 next.1
    ]

unfoldable pub parse_assignments : Bytes → Map × List Bytes
unfolding assign_lines
parse_assignments contents = assign_lines 1 (split b'\n' contents) [] []
