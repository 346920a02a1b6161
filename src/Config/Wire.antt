-- ===== src/Config/Wire.antt =====
-- The documents of internal/config/config.go as they stand in the file.
use lts_agent.Base.{
  Bool, true, false, Bytes, List, [], ◌∷◌, ◌++◌, Option, none, some, lit, same, if◌then◌else◌,
}
use lts_agent.Go.Errors.{text, Result, ok, err, ◌>>=◌}
use lts_agent.Go.Numbers.{ℤ}
use lts_agent.Go.Json.Value.{Value, obj, Fields, field, end, is_null}
use lts_agent.Go.Json.Decode.{decode_struct, int_pointer, string_pointer, bool_pointer}

-- A `json.RawMessage` that is empty is `none`; `null` is a message.
pub record Document : Type 0 where
  pub schema_version : Option ℤ
  pub checks : Option Value
  pub logging : Option Value
  pub core : Option Value

pub record ChecksDocument : Type 0 where
  pub validation_path : Option Bytes
  pub health_path : Option Bytes
  pub timeout_seconds : Option ℤ
  pub max_output_bytes : Option ℤ

pub record CoreDocument : Type 0 where
  pub enabled : Option Bool
  pub base_url : Option Bytes
  pub ca_file : Option Bytes
  pub request_timeout_seconds : Option ℤ
  pub enrollment_token_file : Option Bytes
  pub state_file : Option Bytes

set_document : Bytes → Value → Document → Result Document
set_document name v d =
    if same name (lit "schema_version")
    then (do n ← int_pointer v; ok (record d { schema_version = n }))
    else if same name (lit "checks")
    then ok (record d { checks = some v })
    else if same name (lit "logging")
    then ok (record d { logging = some v })
    else ok (record d { core = some v })

unfoldable pub decode_document : Value → Result Document
unfolding set_document
decode_document =
    decode_struct (lit "schema_version" ∷ lit "checks" ∷ lit "logging" ∷ lit "core" ∷ [])
      set_document (record { schema_version = none; checks = none; logging = none; core = none })

set_checks : Bytes → Value → ChecksDocument → Result ChecksDocument
set_checks name v d =
    if same name (lit "validation_path")
    then (do s ← string_pointer v; ok (record d { validation_path = s }))
    else if same name (lit "health_path")
    then (do s ← string_pointer v; ok (record d { health_path = s }))
    else if same name (lit "timeout_seconds")
    then (do n ← int_pointer v; ok (record d { timeout_seconds = n }))
    else (do n ← int_pointer v; ok (record d { max_output_bytes = n }))

unfoldable pub decode_checks : Value → Result ChecksDocument
unfolding set_checks
decode_checks =
    decode_struct
      (lit "validation_path"
        ∷ lit "health_path"
        ∷ lit "timeout_seconds"
        ∷ lit "max_output_bytes"
        ∷ [])
      set_checks
      (record {
        validation_path = none;
        health_path = none;
        timeout_seconds = none;
        max_output_bytes = none;
      })

set_logging : Bytes → Value → Option Bytes → Result (Option Bytes)
set_logging name v level = string_pointer v

-- The document of `logging` has one field, `level`, and is that field here.
unfoldable pub decode_logging : Value → Result (Option Bytes)
unfolding set_logging
decode_logging = decode_struct (lit "level" ∷ []) set_logging none

set_core : Bytes → Value → CoreDocument → Result CoreDocument
set_core name v d =
    if same name (lit "enabled")
    then (do b ← bool_pointer v; ok (record d { enabled = b }))
    else if same name (lit "base_url")
    then (do s ← string_pointer v; ok (record d { base_url = s }))
    else if same name (lit "ca_file")
    then (do s ← string_pointer v; ok (record d { ca_file = s }))
    else if same name (lit "request_timeout_seconds")
    then (do n ← int_pointer v; ok (record d { request_timeout_seconds = n }))
    else if same name (lit "enrollment_token_file")
    then (do s ← string_pointer v; ok (record d { enrollment_token_file = s }))
    else (do s ← string_pointer v; ok (record d { state_file = s }))

unfoldable pub decode_core : Value → Result CoreDocument
unfolding set_core
decode_core =
    decode_struct
      (lit "enabled"
        ∷ lit "base_url"
        ∷ lit "ca_file"
        ∷ lit "request_timeout_seconds"
        ∷ lit "enrollment_token_file"
        ∷ lit "state_file"
        ∷ [])
      set_core
      (record {
        enabled = none;
        base_url = none;
        ca_file = none;
        request_timeout_seconds = none;
        enrollment_token_file = none;
        state_file = none;
      })

has_field : Bytes → Fields → Bool
has_field name end = false
has_field name (field key v fs) =
    let rest = has_field name fs in if same name key then true else rest

-- The keys of the map whose value is `null`; of a key that is given twice the map has the last value.
null_fields : Fields → List Bytes
unfolding has_field
null_fields end = []
null_fields (field key v fs) =
    let rest = null_fields fs in
    if has_field key fs then rest else if is_null v then key ∷ rest else rest

refuse_null : Bytes → List Bytes → Result (Unit {0})
refuse_null section [] = ok tt
refuse_null section (name ∷ names) =
    err (text (section ++ (lit "." ++ (name ++ lit " must not be null"))))

-- `rejectNullFields`. The order of a Go map is not fixed: of several fields that are `null` the
-- error names the first in the text.
unfoldable pub reject_null_fields : Bytes → Value → Result (Unit {0})
unfolding null_fields refuse_null
reject_null_fields section (obj fs) = refuse_null section (null_fields fs)
reject_null_fields section _ = ok tt
