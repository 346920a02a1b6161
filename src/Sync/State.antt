-- ===== src/Sync/State.antt =====
-- internal/coresync/sync.go: the document of the state file.
use lts_agent.Base.{Bytes, [], ◌++◌, lit, same, if◌then◌else◌}
use lts_agent.Go.Errors.{text, Result, ok, require, wrap_error, ◌>>=◌, ◌>>◌}
use lts_agent.Go.Numbers.{pos, int_eq, show_int}
use lts_agent.Go.Regexp.{matches}
use lts_agent.Go.Json.Value.{Value, str, obj, field, end}
use lts_agent.Go.Json.Decode.{decode_one, decode_struct, int_into, string_into}
use lts_agent.Inventory.Json.{int_value}
use lts_agent.Sync.Token.{
  StateDocument, state_names, state_schema_version, node_id_pattern, refuse_bearer,
}

set_state : Bytes → Value → StateDocument → Result StateDocument
set_state name v s =
    if same name (lit "schema_version")
    then (do n ← int_into s.schema_version v; ok (record s { schema_version = n }))
    else if same name (lit "node_id")
    then (do id ← string_into s.node_id v; ok (record s { node_id = id }))
    else (do token ← string_into s.agent_token v; ok (record s { agent_token = token }))

unfoldable pub decode_state : Value → Result StateDocument
unfolding set_state
decode_state =
    decode_struct state_names set_state
      (record { schema_version = pos 0; node_id = []; agent_token = [] })

-- The checks of `loadState` on the contents of the file.
unfoldable pub check_state : StateDocument → Result StateDocument
check_state s = do
  require (int_eq s.schema_version state_schema_version)
      (text (lit "Core state has unsupported schema_version " ++ show_int s.schema_version))
  require (matches node_id_pattern s.node_id) (text (lit "Core state contains an invalid node_id"))
  refuse_bearer s.agent_token (lit "Core state contains an invalid agent_token")
  ok s

unfoldable pub parse_state : Bytes → Result StateDocument
parse_state contents = do
  s ← wrap_error (lit "parse Core state: ") (decode_one decode_state contents)
  check_state s

-- The value that `writeState` encodes.
unfoldable pub state_value : StateDocument → Value
state_value s = obj (
    field (lit "schema_version") (int_value s.schema_version)
      (field (lit "node_id") (str s.node_id) (field (lit "agent_token") (str s.agent_token) end)))
