-- ===== src/Sync/RoundTrip.antt =====
-- Reading back the state file that `writeState` of internal/coresync/sync.go has written.
use lts_agent.Base.{
  ℕ, suc, ◌≡◌, refl, subst, sym, ap, true, false, Bytes, [], ◌∷◌, ◌++◌, some, all, arith, lit,
  length, append_assoc, same,
}
use lts_agent.Go.Errors.{ok}
use lts_agent.Go.Numbers.{pos, read_int, show_int, int_eq}
use lts_agent.Go.Utf8.{rune_length}
use lts_agent.Go.Strings.{has_prefix}
use lts_agent.Go.Strings.Trim.{is_visible}
use lts_agent.Go.Json.Value.{Fields, obj, field, str, num, end}
use lts_agent.Go.Json.Encode.{encode, print, quote, escape_from, escape_ascii}
use lts_agent.Go.Json.Parse.{
  first_value, read_value, read_fields, read_string, read_scalar, read_number, expect, skip_space,
}
use lts_agent.Go.Json.Decode.{
  decode_one, no_trailing, decode_struct, match_name, int_into, string_into,
}
use lts_agent.Go.Json.Strings.{read_fields-string}
use lts_agent.Go.Action.{continue}
use lts_agent.Sync.Files.{
  FileInfo, Options, Dependencies, load_state, inspect_state, validate_secret_file,
}
use lts_agent.Sync.Secrets.{IsSecretFile}
use lts_agent.Sync.State.{decode_state, check_state, parse_state, state_value}
use lts_agent.Sync.Identity.{IsNodeId, IsState}
use lts_agent.Client.Bearer.{IsBearer, validate_bearer_exact}
use lts_agent.Go.Regexp.{HeadThen-matches}
use lts_agent.Sync.Token.{StateDocument, alphanumeric, is_node_byte}

-- The fields behind the first one.
abbrev last_field : Bytes → Bytes
last_field token =
    lit ",\"agent_token\":\"" ++ (escape_from 0 true token ++ (b'"' ∷ b'}' ∷ b'\n' ∷ []))

abbrev later_fields : Bytes → Bytes → Bytes
later_fields id token =
    lit ",\"node_id\":\"" ++ (escape_from 0 true id ++ (b'"' ∷ last_field token))

-- The text of a state.
abbrev state_text : Bytes → Bytes → Bytes
state_text id token = lit "{\"schema_version\":1" ++ later_fields id token

encode-state_text :
    (id token : Bytes)
    → encode (state_value (record { schema_version = pos 1; node_id = id; agent_token = token }))
      ≡ state_text id token
unfolding encode print quote escape_from escape_ascii state_value show_int lit
encode-state_text id token = simp append_assoc

read_last :
    (n : ℕ) (token : Bytes)
    → all is_visible token ≡ true
    → read_fields (suc (suc n)) false (last_field token)
      ≡ some (field (lit "agent_token") (str token) end, b'\n' ∷ [])
unfolding lit read_fields expect skip_space escape_from escape_ascii
read_last n token v =
    read_fields-string n (lit "agent_token") token (b'}' ∷ b'\n' ∷ []) end (b'\n' ∷ []) refl v refl

read_later :
    (n : ℕ) (id token : Bytes)
    → all is_visible id ≡ true
    → all is_visible token ≡ true
    → read_fields (suc (suc (suc n))) false (later_fields id token)
      ≡ some
          (field (lit "node_id") (str id) (field (lit "agent_token") (str token) end), b'\n' ∷ [])
unfolding lit escape_from escape_ascii
read_later n id token u v =
    read_fields-string (suc n) (lit "node_id") id (last_field token) _ (b'\n' ∷ []) refl u
      (read_last n token v)

read_first :
    (n : ℕ) (rest : Bytes) (fs : Fields) (after : Bytes)
    → read_fields (suc n) false (b',' ∷ rest) ≡ some (fs, after)
    → read_value (suc (suc (suc n))) (lit "{\"schema_version\":1" ++ (b',' ∷ rest))
      ≡ some (obj (field (lit "schema_version") (num (lit "1")) fs), after)
unfolding lit read_value read_fields read_string read_scalar read_number expect skip_space
    has_prefix rune_length
read_first n rest fs after h = rw h refl

abbrev state_of : Bytes → Bytes → StateDocument
state_of id token = record { schema_version = pos 1; node_id = id; agent_token = token }

first_value-state_text :
    (id token : Bytes)
    → all is_visible id ≡ true
    → all is_visible token ≡ true
    → first_value (state_text id token) ≡ some (state_value (state_of id token), b'\n' ∷ [])
unfolding first_value lit state_value show_int
first_value-state_text id token u v =
    let n = length (lit "hema_version\":1" ++ later_fields id token) in
    read_first (suc (suc n)) _ _ (b'\n' ∷ []) (read_later n id token u v)

decode_state-state_value :
    (id token : Bytes) → decode_state (state_value (state_of id token)) ≡ ok (state_of id token)
unfolding decode_state state_value decode_struct match_name int_into string_into read_int show_int
    same lit
decode_state-state_value id token = refl

decode_one-state_text :
    (id token : Bytes)
    → all is_visible id ≡ true
    → all is_visible token ≡ true
    → decode_one decode_state (state_text id token) ≡ ok (state_of id token)
unfolding decode_one
decode_one-state_text id token u v =
    rw (first_value-state_text id token u v)
      (unfold no_trailing skip_space in rw (decode_state-state_value id token) refl)

check_state-IsState-ok :
    (id token : Bytes)
    → IsNodeId id
    → IsBearer token
    → check_state (state_of id token) ≡ ok (state_of id token)
unfolding check_state int_eq
check_state-IsState-ok id token n b =
    ground (
      arith,
      HeadThen-matches alphanumeric is_node_byte 127 id n,
      (validate_bearer_exact token).1 b,
    )

node_bytes-visible : (s : Bytes) → all is_node_byte s ≡ true → all is_visible s ≡ true
node_bytes-visible [] h = refl
node_bytes-visible (c ∷ s) h = ground (arith, node_bytes-visible s)

IsNodeId-visible : (id : Bytes) → IsNodeId id → all is_visible id ≡ true
IsNodeId-visible [] h = absurd h
IsNodeId-visible (c ∷ s) h = ground (arith, node_bytes-visible s)

state_of-parts : (s : StateDocument) → IsState s → state_of s.node_id s.agent_token ≡ s
state_of-parts s h = ap (λ v. record s { schema_version = v }) (sym h.version)

-- A state is read back from the text that `writeState` encodes it to.
pub parse_state-encode :
    (s : StateDocument) → IsState s → parse_state (encode (state_value s)) ≡ ok s
unfolding parse_state
parse_state-encode s h =
    subst (λ t. parse_state (encode (state_value t)) ≡ ok t) (state_of-parts s h)
      (rw
        (
          encode-state_text s.node_id s.agent_token,
          decode_one-state_text s.node_id s.agent_token (IsNodeId-visible s.node_id h.node_id)
              h.agent_token.visible,
        )
        (check_state-IsState-ok s.node_id s.agent_token h.node_id h.agent_token))

validate_secret_file-IsSecretFile :
    (info : FileInfo) (name : Bytes) → IsSecretFile info → validate_secret_file info name ≡ ok tt
unfolding validate_secret_file
validate_secret_file-IsSecretFile info name f = ground (arith, f.no_symlink, f.regular, f.closed)

module _ {W : Type 0} (options : Options) (deps : Dependencies W) where
  inspect_state-found :
      (w : W) (info : FileInfo)
      → (deps.lstat options.state_file w).0 ≡ ok info
      → inspect_state options deps w ≡ (ok info, (deps.lstat options.state_file w).1)
  unfolding inspect_state
  inspect_state-found w info h = rw (inspect_state, h) refl

  -- Where the state file is a private regular file that holds the text of a state, `loadState`
  -- returns that very state.
  pub load_state-stored :
      (w : W) (s : StateDocument) (info : FileInfo)
      → IsState s
      → IsSecretFile info
      → (deps.lstat options.state_file w).0 ≡ ok info
      → (deps.read_file options.state_file (deps.lstat options.state_file w).1).0
        ≡ ok (encode (state_value s))
      → (load_state options deps w).0 ≡ ok s
  unfolding load_state continue
  load_state-stored w s info h f found contents =
      let inspected = inspect_state-found w info found in
      let secret : validate_secret_file info (lit "Core state") ≡ ok tt =
        validate_secret_file-IsSecretFile info _ f in
      rw (load_state, inspected, secret, contents) (parse_state-encode s h)
