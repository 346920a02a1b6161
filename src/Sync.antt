-- ===== src/Sync.antt =====
-- internal/coresync/sync.go: one registration, heartbeat and desired-state cycle.
pub mod State
pub mod Files
pub mod Token
pub mod Identity
pub mod States
pub mod Stages
pub mod Outcome
pub mod Atomic
pub mod Secrets
pub mod Endpoint
pub mod Quiet
pub mod Kept
pub mod Enrollment
pub mod Persisted
pub mod Enabled
pub mod RoundTrip
pub mod Durable
pub mod Again
pub mod Requests
mod Tests
use lts_agent.Base.{
  ℕ, ◌+◌, ◌/◌, ◌%◌, Bool, true, false, ◌&&◌, ◌||◌, not, Bytes, List, [], ◌∷◌, ◌++◌, Option, none,
  some, lit, same, ◌==◌, if◌then◌else◌, within, all, map, is_empty,
}
use lts_agent.Go.Errors.{
  Error, text, state_not_found, is_state_not_found, is_not_exist, as_http, error_text, wrap, Result,
  ok, err,
}
use lts_agent.Go.Action.{Action, pure, lift, wrapped, ◌>>=◌, ◌>>◌}
use lts_agent.Go.Numbers.{ℤ, pos, show_nat}
use lts_agent.Go.Json.Value.{Value, str, num, obj, field, end}
use lts_agent.Client.{Client, no_target, into, do_json_with_bearer}
use lts_agent.Inventory.{Report, Core, Operation, DesiredState, Warning}
use lts_agent.Inventory.Json.{report_value, int_value}
use lts_agent.Desired
use lts_agent.Desired.{Document}
use lts_agent.Sync.Files.{
  Options, Dependencies, with_defaults, load_state, write_state, fingerprint, read_secret,
}
use lts_agent.Sync.Token.{StateDocument, unmarshal_registration, check_registration, path_escape}

abbrev pub registration_endpoint : Bytes
registration_endpoint = lit "v1/nodes/register"

abbrev pub desired_state_suffix : Bytes
desired_state_suffix = lit "/desired-state"

abbrev pub operation : Bool → Bytes → Operation
operation attempted status = record { attempted = attempted; status = status }

-- `emptyDesiredState`.
abbrev pub empty_desired_state : DesiredState
empty_desired_state = record {
  available = false;
  schema_version = pos 0;
  revision = [];
  roles = some [];
  capabilities = some [];
}

-- `sanitizeError`.
pub sanitize_error : Error → Bytes
sanitize_error e = elim (as_http e) [
  | some status ↦ lit "LTS Core returned HTTP " ++ show_nat status
  | none ↦ error_text e
]

abbrev pub warning : Bytes → Bytes → Warning
warning source message = record { source = source; message = message }

-- The report that goes on the wire.
abbrev pub snapshot : Report → Report
snapshot report = record report { desired_state = none; core = none }

registration_request : Bytes → Bytes → Report → Value
registration_request fingerprint agent_version report = obj (
    field (lit "schema_version") (int_value (pos 1)) (
      field (lit "node_fingerprint") (str fingerprint) (
        field (lit "agent_version") (str agent_version)
          (field (lit "inventory") (report_value report) end))))

heartbeat_request : Bytes → Bytes → Report → Value
heartbeat_request sent_at agent_version report = obj (
    field (lit "schema_version") (int_value (pos 1)) (
      field (lit "sent_at") (str sent_at) (
        field (lit "agent_version") (str agent_version)
          (field (lit "inventory") (report_value report) end))))

abbrev pub node_endpoint : Bytes → Bytes → Bytes
node_endpoint node_id suffix = lit "v1/nodes/" ++ (path_escape node_id ++ suffix)

-- What `Sync` returns.
abbrev pub Outcome : Type 0
Outcome = Core × Option DesiredState × List Warning

-- The result of the retrieval of the desired state.
pub observed : Core → List Warning → Result Document → Outcome
observed result warnings (err e) = (
  record result { desired_state = operation true (lit "failed") },
  some empty_desired_state,
  warnings ++ (warning (lit "core.desired_state") (sanitize_error e) ∷ []),
)
observed result warnings (ok document) = (
  record result { desired_state = operation true (lit "succeeded") },
  some (Desired.inventory document),
  warnings,
)

-- The result of the heartbeat.
pub beaten : Core → List Warning → Result (Unit {0}) → Core × List Warning
beaten result warnings (err e) = (
  record result { heartbeat = operation true (lit "failed") },
  warnings ++ (warning (lit "core.heartbeat") (sanitize_error e) ∷ []),
)
beaten result warnings (ok _) =
    (record result { heartbeat = operation true (lit "succeeded") }, warnings)

-- The warning about an enrollment token that could not be removed.
discarded : Result (Unit {0}) → List Warning
discarded (ok _) = []
discarded (err e) =
    if is_not_exist e
    then []
    else warning (lit "core.enrollment") (lit "remove consumed enrollment token: " ++ error_text e)
      ∷ []

abbrev started : Operation → Core
started registration = record {
  enabled = true;
  registered = false;
  node_id = [];
  registration = registration;
  heartbeat = operation false (lit "skipped");
  desired_state = operation false (lit "skipped");
}

abbrev pub registered_as : Operation → StateDocument → Core
registered_as registration state = record (started registration) {
  registered = true;
  node_id = state.node_id;
}

unfoldable pub disabled_core : Core
disabled_core = record {
  enabled = false;
  registered = false;
  node_id = [];
  registration = operation false (lit "disabled");
  heartbeat = operation false (lit "disabled");
  desired_state = operation false (lit "disabled");
}

module _ {W : Type 0} (client : Client W) (options : Options) (deps : Dependencies W) where
  -- The exchange of `register`, and the checks of the response.
  request_registration : Bytes → Bytes → Report → Action W StateDocument
  request_registration fingerprint token report = do
    response ←
        do_json_with_bearer client (lit "POST") registration_endpoint token
          (some (registration_request fingerprint options.agent_version (snapshot report)))
          (into unmarshal_registration)
    lift (check_registration response)

  pub register : Report → Action W StateDocument
  register report = do
    print ← fingerprint options deps
    token ← read_secret options deps options.enrollment_token_file (lit "enrollment token")
    state ← request_registration print token report
    wrapped (lit "persist Core state: ") (write_state options deps state)
    pure state

  pub heartbeat : Report → StateDocument → Action W (Unit {0})
  heartbeat report state w =
      let (sent_at, w') = deps.now w in
      do_json_with_bearer client (lit "POST") (node_endpoint state.node_id (lit "/heartbeat"))
        state.agent_token (some (heartbeat_request sent_at options.agent_version (snapshot report)))
        no_target w'

  pub desired_state : StateDocument → Action W Document
  desired_state state =
      do_json_with_bearer client (lit "GET") (node_endpoint state.node_id desired_state_suffix)
        state.agent_token none (into Desired.unmarshal)

  -- `Sync` from the retrieval of the desired state on.
  observe : Core → List Warning → StateDocument → W → Outcome × W
  observe result warnings state w =
      let reply = desired_state state w in (observed result warnings reply.0, reply.1)

  -- `Sync` from the heartbeat on.
  pub report_in : Report → Core → List Warning → StateDocument → W → Outcome × W
  report_in report result warnings state w =
      let reply = heartbeat report state w in
      let after = beaten result warnings reply.0 in
      if deps.cancelled reply.1
      then ((after.0, some empty_desired_state, after.1), reply.1)
      else observe after.0 after.1 state reply.1

  -- The removal of the enrollment token, after a registration.
  discard_token : W → List Warning × W
  discard_token w =
      let removed = deps.remove options.enrollment_token_file w in (discarded removed.0, removed.1)

  -- `Sync` behind the registration.
  enrolled : Report → Result StateDocument → W → Outcome × W
  enrolled report (err e) w = (
    (
      started (operation true (lit "failed")),
      some empty_desired_state,
      warning (lit "core.registration") (sanitize_error e) ∷ [],
    ),
    w,
  )
  enrolled report (ok state) w =
      let token = discard_token w in
      report_in report (registered_as (operation true (lit "succeeded")) state) token.0 state
        token.1

  -- `Sync` after `loadState` found no state.
  enroll : Report → W → Outcome × W
  enroll report w = let reply = register report w in enrolled report reply.0 reply.1

  -- `Sync` on the result of `loadState`.
  resume : Report → Result StateDocument → W → Outcome × W
  resume report (ok state) w =
      report_in report (registered_as (operation false (lit "not_needed")) state) [] state w
  resume report (err e) w = if is_state_not_found e then enroll report w else (
    (
      started (operation false (lit "failed")),
      some empty_desired_state,
      warning (lit "core.state") (sanitize_error e) ∷ [],
    ),
    w,
  )

  pub sync : Report → W → Outcome × W
  sync report w =
      let loaded = load_state options deps w in
      if options.enabled
      then resume report loaded.0 loaded.1
      else ((disabled_core, some empty_desired_state, []), w)

-- `New` and `Sync` on it: `deps` holds the functions of `os` and `time`.
unfoldable pub synchronizer :
    {W : Type 0} → Client W → Options → Dependencies W → Report → W → Outcome × W
synchronizer client options deps = sync client (with_defaults options) deps
