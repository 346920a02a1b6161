-- ===== src/Sync/Tests.antt =====
-- Runs of internal/coresync/sync.go against a small node and a small Core, and instances of the
-- theorems.
mod Node
mod Disk
mod Cycles
mod Requests
use lts_agent.Base.{
  arith, subst, ◌⊎◌, ℕ, suc, ◌≡◌, refl, Bool, true, false, Bytes, [], ◌∷◌, ◌++◌, none, some, lit,
  same, contains, if◌then◌else◌, less,
}
use lts_agent.Go.Action.{continue}
use lts_agent.Go.Errors.{ok, err, text, not_exist, http, is_not_exist, is_state_not_found}
use lts_agent.Go.Numbers.{pos, read_int, int_eq, show_nat, show_int}
use lts_agent.Go.Regexp.{matches}
use lts_agent.Go.Sets.{add, sort_strings}
use lts_agent.Go.Strings.{has_prefix, trim_space, split}
use lts_agent.Go.Utf8.{rune_length, encode_rune}
use lts_agent.Go.Json.Value.{is_null}
use lts_agent.Go.Json.Parse.{first_value, skip_space, read_string, read_number}
use lts_agent.Go.Json.Decode.{
  decode_one, decode_struct, match_name, int_pointer, string_pointer, string_into, int_into,
  decode_strings,
}
use lts_agent.Client.Net.{Url, Web, read_limited}
use lts_agent.Client.{
  Client, validate_bearer, do_json_with_bearer, do_json_unchecked, send_built, exchange,
  build_request, resolve_endpoint, request_headers, read_response, read_bounded, read_within,
}
use lts_agent.Inventory.{Report, Check}
use lts_agent.Sync.Files.{
  Options, Dependencies, FileInfo, load_state, write_state, read_secret, fingerprint, inspect_state,
  validate_secret_file, prepare_directory, fill_and_rename, clean_up,
}
use lts_agent.Sync.Token.{StateDocument, unmarshal_registration, check_registration, path_escape}
use lts_agent.Sync.State.{parse_state, check_state, decode_state, state_value}
use lts_agent.Go.Json.Encode.{encode, print, quote, escape_from, escape_ascii}
use lts_agent.Sync.Durable.{register-load_state}
use lts_agent.Sync.Tests.Disk.{disk, disk_client, disk-IsFileSystem, start}
use lts_agent.Sync.Identity.{IsState}
use lts_agent.Sync.Endpoint.{node_endpoint-IsNodeId}
use lts_agent.Sync.States.{load_state-IsState, register-IsState}
use lts_agent.Sync.Stages.{IsCoherent}
use lts_agent.Sync.Outcome.{sync-IsCoherent}
use lts_agent.Sync.Atomic.{LeavesAlone, write_state_atomic}
use lts_agent.Sync.Enrollment.{SparesToken}
use lts_agent.Sync.Persisted.{Enrolled, sync_token_or_state}
use lts_agent.Sync.Secrets.{
  ok-injective, Secret, read_secret-Secret, sanitize_error-http, wrapped_in,
}
use lts_agent.Identifier.{valid}
use lts_agent.Desired.{unmarshal, inventory, decode_wire, check_wire, decode_identifiers}
use lts_agent.Sync.{
  node_endpoint, operation, enroll, enrolled, discard_token, discarded, report_in, heartbeat,
  heartbeat_request, beaten, observe, observed, desired_state, sync, resume, sanitize_error,
  register, registration_request, request_registration,
}
use lts_agent.Sync.Tests.Node.{
  options, regular, directory, World, fresh, node, url, web, client, no_check, report, state,
}

sync-IsCoherent_example : IsCoherent (sync client options (node true false) report fresh).0
sync-IsCoherent_example = sync-IsCoherent client options (node true false) report fresh

load_state-IsState_example : IsState state
unfolding load_state inspect_state continue validate_secret_file parse_state check_state
    decode_state validate_bearer matches decode_one decode_struct match_name int_into string_into
    first_value skip_space read_string read_number rune_length encode_rune is_null read_int int_eq
    lit same contains less has_prefix
load_state-IsState_example = load_state-IsState client options (node true true) fresh state refl

register-IsState_example : IsState state
unfolding register request_registration registration_request fingerprint read_secret write_state
    prepare_directory fill_and_rename clean_up unmarshal_registration check_registration trim_space
    do_json_with_bearer do_json_unchecked send_built exchange build_request resolve_endpoint
    request_headers read_response read_bounded read_within read_limited has_prefix split continue
    validate_secret_file validate_bearer matches decode_one decode_struct match_name int_into
    string_into first_value skip_space read_string read_number rune_length encode_rune is_null
    read_int int_eq lit same contains less
register-IsState_example = register-IsState client options (node true false) report fresh state refl

registered : (register disk_client options disk report start).0 ≡ ok state
unfolding register request_registration registration_request fingerprint read_secret write_state
    prepare_directory fill_and_rename clean_up unmarshal_registration check_registration trim_space
    do_json_with_bearer do_json_unchecked send_built exchange build_request resolve_endpoint
    request_headers read_response read_bounded read_within read_limited has_prefix split continue
    validate_secret_file validate_bearer matches decode_one decode_struct match_name int_into
    string_into first_value skip_space read_string read_number rune_length encode_rune is_null
    read_int int_eq lit same contains less disk start
registered = refl

register-load_state_example :
    (load_state options disk (register disk_client options disk report start).1).0 ≡ ok state
register-load_state_example =
    register-load_state disk_client options disk disk-IsFileSystem report start state registered

read_secret-Secret_example : Secret (node true false) (lit "/token") fresh (lit "enroll")
unfolding read_secret continue validate_secret_file validate_bearer trim_space lit same
read_secret-Secret_example =
    read_secret-Secret options (node true false) (lit "/token") (lit "enrollment token") fresh
      (lit "enroll") refl

sanitize_error-http_example :
    sanitize_error (wrapped_in (lit "a: " ∷ lit "b: " ∷ []) (http 401 (lit "secret")))
    ≡ lit "LTS Core returned HTTP " ++ show_nat 401
sanitize_error-http_example = sanitize_error-http (lit "a: " ∷ lit "b: " ∷ []) 401 (lit "secret")

-- No call of a node without renames but a rename writes the state file.
quiet_node : LeavesAlone options (node false false) (λ w. w.writes ≡ 0)
unfolding same
quiet_node = record {
  lstat = λ path w h. ground arith;
  mkdir_all = λ path mode w h. h;
  create_temp = λ dir pattern w h. h;
  chmod = λ dir name v made mode w h. h;
  write = λ dir name v made contents w h. h;
  sync_file = λ name w h. h;
  close = λ name w h. h;
  remove = λ dir name v made w h. ground arith;
  rename_fails = λ name w e failed h. h;
}

write_state_atomic_example : (write_state options (node false false) state fresh).1.writes ≡ 0
unfolding write_state prepare_directory fill_and_rename clean_up continue lit same
write_state_atomic_example =
    write_state_atomic options (node false false) (λ w. w.writes ≡ 0) quiet_node state fresh
      (text (lit "rename")) refl refl

-- A whole cycle of a node without a state: three requests and one write of the state file.
sync-enrolls : sync client options (node true false) report fresh ≡ (
  (
    record {
      enabled = true;
      registered = true;
      node_id = lit "n1";
      registration = operation true (lit "succeeded");
      heartbeat = operation true (lit "succeeded");
      desired_state = operation true (lit "succeeded");
    },
    some (record {
      available = true;
      schema_version = pos 1;
      revision = lit "r1";
      roles = some (lit "web" ∷ []);
      capabilities = some [];
    }),
    [],
  ),
  record { requests = 3; writes = 1; has_token = false },
)
unfolding sync resume enroll enrolled discard_token discarded report_in heartbeat heartbeat_request
    beaten observe observed desired_state unmarshal inventory decode_wire check_wire
    decode_identifiers decode_strings int_pointer string_pointer add sort_strings valid path_escape
    load_state inspect_state register is_not_exist is_state_not_found request_registration
    registration_request fingerprint read_secret write_state prepare_directory fill_and_rename
    clean_up unmarshal_registration check_registration trim_space do_json_with_bearer
    do_json_unchecked send_built exchange build_request resolve_endpoint request_headers
    read_response read_bounded read_within read_limited has_prefix split continue
    validate_secret_file validate_bearer matches decode_one decode_struct match_name int_into
    string_into first_value skip_space read_string read_number rune_length encode_rune is_null
    read_int int_eq lit same contains less
sync-enrolls = refl

node_endpoint-IsNodeId_example :
    (node_endpoint (lit "n1") (lit "/heartbeat")
      ≡ lit "v1/nodes/" ++ (lit "n1" ++ lit "/heartbeat"))
    × (split b'/' (lit "n1") ≡ lit "n1" ∷ [])
unfolding lit
node_endpoint-IsNodeId_example =
    node_endpoint-IsNodeId (lit "n1") (lit "/heartbeat") (refl, refl, omega arith)

calm_node : SparesToken options (node true false) (λ w. w.has_token ≡ true)
unfolding same lit
calm_node = record {
  reads = record { read_file = λ path w h. ground arith; lstat = λ path w h. ground arith };
  mkdir_all = λ path mode w h. h;
  create_temp = λ dir pattern w h. h;
  on_temporary = λ dir name w made. (
    λ mode w h. h,
    λ contents w h. h,
    λ w h. h,
    λ w h. h,
    λ w h. h,
    subst
        (λ t. (w : World) → w.has_token ≡ true → ((node true false).remove t w).1.has_token ≡ true)
        (ok-injective (lit "/.state-1") name made) (λ w h. h),
  );
}

sync_token_or_state_example :
    ((sync client options (node true false) report fresh).1.has_token ≡ true)
    ⊎ Enrolled client options
        (node true false)
        (sync client options (node true false) report fresh).0
sync_token_or_state_example =
    sync_token_or_state client options (node true false) (λ w. w.has_token ≡ true) calm_node
      (record { now = λ w h. h; send = λ r w h. h }) report fresh refl
