-- ===== src/Sync/Identity.antt =====
-- The node's identity in internal/coresync/sync.go: what is accepted, and the paths made of it.
use lts_agent.Base.{ℕ, ◌≡◌, refl, true, Bytes, [], ◌∷◌, all, arith, lit, inl, inr}
use lts_agent.Go.Errors.{ok, Result-cases}
use lts_agent.Go.Numbers.{ℤ, pos, int_eq}
use lts_agent.Go.Regexp.{matches, HeadThen, matches-HeadThen}
use lts_agent.Go.Json.Decode.{decode_one}
use lts_agent.Client.{validate_bearer}
use lts_agent.Client.Bearer.{IsBearer, validate_bearer_exact}
use lts_agent.Sync.State.{decode_state, check_state, parse_state}
use lts_agent.Sync.Token.{
  StateDocument, RegistrationResponse, alphanumeric, is_node_byte, node_id_pattern, refuse_bearer,
  check_registration, path_escape,
}

-- A letter or digit, then at most 127 letters, digits, dots, underscores and hyphens.
abbrev pub IsNodeId : Bytes → Type 0
IsNodeId = HeadThen alphanumeric is_node_byte 127

-- A state that the agent works with.
pub record IsState (s : StateDocument) : Type 0 where
  pub version : s.schema_version ≡ pos 1
  pub node_id : IsNodeId s.node_id
  pub agent_token : IsBearer s.agent_token

int_eq-eq : (a : ℤ) (n : ℕ) → int_eq a (pos n) ≡ true → a ≡ pos n
unfolding int_eq
int_eq-eq a n h = ground arith

pub refuse_bearer-IsBearer :
    (token message : Bytes) → refuse_bearer token message ≡ ok tt → IsBearer token
refuse_bearer-IsBearer token message h = elim (Result-cases (validate_bearer token)) [
  | inl (tt, e) ↦ (validate_bearer_exact token).0 e
  | inr (f, e) ↦ absurd (ground arith)
]

check_state-parts :
    (s s' : StateDocument)
    → check_state s ≡ ok s'
    → (s' ≡ s)
      × (int_eq s.schema_version (pos 1) ≡ true)
      × (matches node_id_pattern s.node_id ≡ true)
      × (refuse_bearer s.agent_token (lit "Core state contains an invalid agent_token") ≡ ok tt)
unfolding check_state
check_state-parts s s' h = ground arith

pub check_state-IsState : (s s' : StateDocument) → check_state s ≡ ok s' → IsState s'
check_state-IsState s s' h =
    let (same, v, n, t) = check_state-parts s s' h in
    rw same (record {
      version = int_eq-eq s.schema_version 1 v;
      node_id = matches-HeadThen alphanumeric is_node_byte 127 s.node_id n;
      agent_token = refuse_bearer-IsBearer s.agent_token _ t;
    })

pub parse_state-IsState :
    (contents : Bytes) (s : StateDocument) → parse_state contents ≡ ok s → IsState s
unfolding parse_state
parse_state-IsState contents s h = elim (Result-cases (decode_one decode_state contents)) [
  | inr (e, f) ↦ absurd (ground arith)
  | inl (d, f) ↦ check_state-IsState d s (ground arith)
]

check_registration-parts :
    (r : RegistrationResponse) (s : StateDocument)
    → check_registration r ≡ ok s
    → (s ≡ record { schema_version = pos 1; node_id = r.node_id; agent_token = r.agent_token })
      × (matches node_id_pattern r.node_id ≡ true)
      × (refuse_bearer r.agent_token (lit "registration response contains an invalid agent_token")
          ≡ ok tt)
unfolding check_registration
check_registration-parts r s h = ground arith

pub check_registration-IsState :
    (r : RegistrationResponse) (s : StateDocument) → check_registration r ≡ ok s → IsState s
check_registration-IsState r s h =
    let (same, n, t) = check_registration-parts r s h in
    rw same (record {
      version = refl;
      node_id = matches-HeadThen alphanumeric is_node_byte 127 r.node_id n;
      agent_token = refuse_bearer-IsBearer r.agent_token _ t;
    })

path_escape-all : (s : Bytes) → all is_node_byte s ≡ true → path_escape s ≡ s
unfolding path_escape
path_escape-all [] h = refl
path_escape-all (c ∷ s) h = ground (arith, path_escape-all s)

-- `url.PathEscape` leaves a well-formed node id as it is.
pub path_escape-IsNodeId : (s : Bytes) → IsNodeId s → path_escape s ≡ s
unfolding path_escape
path_escape-IsNodeId [] h = refl
path_escape-IsNodeId (c ∷ s) h = path_escape-all (c ∷ s) (ground arith)
