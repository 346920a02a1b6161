-- ===== src/Sync/Token.antt =====
-- internal/coresync/sync.go: the registration response and the node's identity.
use lts_agent.Base.{
  ℕ, ◌/◌, ◌%◌, ◌+◌, Bool, ◌||◌, Bytes, List, [], ◌∷◌, ◌++◌, lit, same, ◌==◌, if◌then◌else◌, within,
  ◌-◌, ltb,
}
use lts_agent.Go.Errors.{text, Result, ok, err, require, ◌>>=◌, ◌>>◌}
use lts_agent.Go.Numbers.{ℤ, pos, int_eq, show_int}
use lts_agent.Go.Regexp.{Regex, class, seq, upto, matches}
use lts_agent.Go.Json.Value.{Value}
use lts_agent.Go.Json.Decode.{decode_struct, int_into, string_into}
use lts_agent.Client.{validate_bearer}

abbrev pub state_schema_version : ℤ
state_schema_version = pos 1

abbrev pub wire_schema_version : ℤ
wire_schema_version = pos 1

abbrev pub alphanumeric : ℕ → Bool
alphanumeric c = within b'A' b'Z' c || within b'a' b'z' c || within b'0' b'9' c

abbrev pub is_node_byte : ℕ → Bool
is_node_byte c = alphanumeric c || c == b'.' || c == b'_' || c == b'-'

-- `^[A-Za-z0-9][A-Za-z0-9._-]{0,127}$`
abbrev pub node_id_pattern : Regex
node_id_pattern = seq (class alphanumeric) (upto 127 (class is_node_byte))

pub record StateDocument : Type 0 where
  pub schema_version : ℤ
  pub node_id : Bytes
  pub agent_token : Bytes

pub record RegistrationResponse : Type 0 where
  pub schema_version : ℤ
  pub node_id : Bytes
  pub agent_token : Bytes

abbrev pub state_names : List Bytes
state_names = lit "schema_version" ∷ lit "node_id" ∷ lit "agent_token" ∷ []

set_registration : Bytes → Value → RegistrationResponse → Result RegistrationResponse
set_registration name v r =
    if same name (lit "schema_version")
    then (do n ← int_into r.schema_version v; ok (record r { schema_version = n }))
    else if same name (lit "node_id")
    then (do s ← string_into r.node_id v; ok (record r { node_id = s }))
    else (do s ← string_into r.agent_token v; ok (record r { agent_token = s }))

-- `UnmarshalJSON` on the value that the client's decoder hands it.
unfoldable pub unmarshal_registration : Value → Result RegistrationResponse
unfolding set_registration
unmarshal_registration =
    decode_struct state_names set_registration
      (record { schema_version = pos 0; node_id = []; agent_token = [] })

-- An error of `ValidateBearer`, replaced by a message that does not depend on the token.
abbrev pub refuse_bearer : Bytes → Bytes → Result (Unit {0})
refuse_bearer token message = elim (validate_bearer token) [
  | ok _ ↦ ok tt
  | err _ ↦ err (text message)
]

-- The checks of `register` on the response, and the state made of it.
unfoldable pub check_registration : RegistrationResponse → Result StateDocument
check_registration r = do
  require (int_eq r.schema_version wire_schema_version) (
      text
        (lit "registration response has unsupported schema_version " ++ show_int r.schema_version))
  require (matches node_id_pattern r.node_id)
      (text (lit "registration response contains an invalid node_id"))
  refuse_bearer r.agent_token (lit "registration response contains an invalid agent_token")
  ok (record {
    schema_version = state_schema_version;
    node_id = r.node_id;
    agent_token = r.agent_token;
  })

-- The bytes that `url.PathEscape` leaves alone.
is_path_byte : ℕ → Bool
is_path_byte c =
    alphanumeric c
    || c == b'-'
    || c == b'_'
    || c == b'.'
    || c == b'~'
    || c == b'$'
    || c == b'&'
    || c == b'+'
    || c == b':'
    || c == b'='
    || c == b'@'

upper_hex : ℕ → ℕ
upper_hex n = if ltb n 10 then b'0' + n else b'A' + (n - 10)

-- `url.PathEscape`.
unfoldable pub path_escape : Bytes → Bytes
unfolding is_path_byte upper_hex
path_escape [] = []
path_escape (c ∷ s) =
    (if is_path_byte c then c ∷ [] else b'%' ∷ upper_hex (c / 16) ∷ upper_hex (c % 16) ∷ [])
    ++ path_escape s
