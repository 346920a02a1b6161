-- ===== src/Sync/Tests/Cycles.antt =====
-- Cycles of internal/coresync/sync.go over a small disk.
use lts_agent.Base.{
  ◌≡◌, refl, true, false, Bytes, none, [], ◌∷◌, lit, same, same_iff, contains, Bool-cases, inl, inr,
}
use lts_agent.Go.Action.{continue}
use lts_agent.Go.Errors.{is_not_exist, is_state_not_found}
use lts_agent.Go.Numbers.{read_int, int_eq}
use lts_agent.Go.Regexp.{matches}
use lts_agent.Go.Strings.{has_prefix, trim_space, split}
use lts_agent.Go.Utf8.{rune_length, encode_rune}
use lts_agent.Go.Json.Value.{is_null}
use lts_agent.Go.Json.Parse.{first_value, skip_space, read_string, read_number}
use lts_agent.Go.Json.Decode.{
  decode_one, decode_struct, match_name, string_into, int_into, int_pointer,
}
use lts_agent.Client.Net.{read_limited}
use lts_agent.Client.{
  validate_bearer, do_json_with_bearer, do_json_unchecked, send_built, exchange, build_request,
  resolve_endpoint, request_headers, read_response, read_bounded, read_within,
}
use lts_agent.Desired.{unmarshal, decode_wire}
use lts_agent.Sync.Files.{
  load_state, write_state, read_secret, fingerprint, inspect_state, validate_secret_file,
  prepare_directory, fill_and_rename, clean_up,
}
use lts_agent.Sync.Token.{unmarshal_registration, check_registration, path_escape}
use lts_agent.Sync.Again.{IsUndisturbed, HasEnrolled, IsKnown, cycles, sync_enrolls_once}
use lts_agent.Sync.{
  enroll, enrolled, discard_token, discarded, report_in, heartbeat, heartbeat_request, beaten,
  observe, observed, desired_state, sync, resume, register, registration_request,
  request_registration,
}
use lts_agent.Sync.Tests.Disk.{Disk, disk, disk_client, disk-IsFileSystem, start, update}
use lts_agent.Sync.Tests.Node.{options, report}

not_same : (name path : Bytes) → ¬ (name ≡ path) → same name path ≡ false
not_same name path apart = elim (Bool-cases (same name path)) [
  | inl e ↦ absurd (apart ((same_iff name path).0 e))
  | inr e ↦ e
]

update-other : (w : Disk) (path name : Bytes) → ¬ (name ≡ path) → update w path none name ≡ w name
unfolding update
update-other w path name apart = rw (not_same name path apart) refl

disk-IsUndisturbed : IsUndisturbed disk_client disk disk-IsFileSystem
unfolding disk disk-IsFileSystem
disk-IsUndisturbed = record {
  read_file = λ path name w. refl;
  lstat = λ path name w. refl;
  now = λ name w. refl;
  send = λ r name w. refl;
  remove = λ path name w apart. update-other w path name apart;
}

first_cycle : HasEnrolled (sync disk_client options disk report start).0.0
unfolding sync resume enroll enrolled discard_token discarded report_in heartbeat heartbeat_request
    beaten observe observed desired_state path_escape load_state inspect_state register is_not_exist
    is_state_not_found request_registration registration_request fingerprint read_secret write_state
    prepare_directory fill_and_rename clean_up unmarshal_registration check_registration trim_space
    do_json_with_bearer do_json_unchecked send_built exchange build_request resolve_endpoint
    request_headers read_response read_bounded read_within read_limited has_prefix split continue
    validate_secret_file validate_bearer matches decode_one decode_struct match_name int_into
    string_into first_value skip_space read_string read_number rune_length encode_rune is_null
    read_int int_eq lit same contains disk start unmarshal decode_wire int_pointer
first_cycle = record { attempted = refl; registered = refl }

files_apart : ¬ (lit "/state" ≡ lit "/token")
unfolding lit same
files_apart h =
    let e : same (lit "/state") (lit "/token") ≡ true =
      (same_iff (lit "/state") (lit "/token")).1 h in
    absurd (cc)

sync_enrolls_once_example :
    IsKnown
      (sync disk_client options disk report start).0.0.node_id
      (sync disk_client options disk report (
        cycles
          (sync disk_client options disk)
          (report ∷ report ∷ [])
          (sync disk_client options disk report start).1)).0.0
sync_enrolls_once_example =
    sync_enrolls_once disk_client options disk disk-IsFileSystem disk-IsUndisturbed files_apart
      report report (report ∷ report ∷ []) start first_cycle
