-- ===== src/Sync/Tests/Node.antt =====
-- A small node and a small Core, on which internal/coresync/sync.go is run.
use lts_agent.Base.{
  ℕ, suc, Bool, true, false, Bytes, [], ◌∷◌, ◌++◌, none, some, lit, same, if◌then◌else◌,
}
use lts_agent.Go.Errors.{ok, err, text, not_exist}
use lts_agent.Go.Numbers.{pos}
use lts_agent.Client.Net.{Url, Web}
use lts_agent.Client.{Client}
use lts_agent.Inventory.{Report, Check}
use lts_agent.Sync.Files.{Options, Dependencies, FileInfo}
use lts_agent.Sync.Token.{StateDocument}

abbrev pub options : Options
options = record {
  enabled = true;
  agent_version = lit "1.0";
  machine_id_path = lit "/etc/machine-id";
  enrollment_token_file = lit "/token";
  state_file = lit "/state";
}

abbrev pub regular : FileInfo
regular = record { is_symlink = false; is_regular = true; is_dir = false; perm = 0o600 }

abbrev pub directory : FileInfo
directory = record { is_symlink = false; is_regular = false; is_dir = true; perm = 0o700 }

-- The outside world: the number of requests and of writes of the state file, and whether the
-- enrollment token is there.
pub record World : Type 0 where
  pub requests : ℕ
  pub writes : ℕ
  pub has_token : Bool

abbrev pub fresh : World
fresh = record { requests = 0; writes = 0; has_token = true }

-- A node; `renames` says whether a rename succeeds, and `stored` whether there is a state file.
abbrev pub node : Bool → Bool → Dependencies World
node renames stored = record {
  read_file = λ path w.
      if same path (lit "/token")
      then (ok (lit "enroll\n"), w)
      else if same path (lit "/state")
      then (ok (lit "{\"schema_version\":1,\"node_id\":\"n1\",\"agent_token\":\"secret\"}"), w)
      else (ok (lit "0123456789abcdef0123456789ABCDEF\n"), w);
  lstat = λ path w.
      if same path (lit "/state")
      then (if stored then (ok regular, w) else (err (not_exist (lit "no file")), w))
      else if same path (lit "/token")
      then (ok regular, w)
      else (ok directory, w);
  mkdir_all = λ path mode w. (ok tt, w);
  create_temp = λ dir pattern w. (ok (lit "/.state-1"), w);
  chmod = λ name mode w. (ok tt, w);
  write = λ name contents w. (ok tt, w);
  sync_file = λ name w. (ok tt, w);
  close = λ name w. (ok tt, w);
  rename = λ from to w.
      if renames
      then (ok tt, record w { writes = suc w.writes })
      else (err (text (lit "rename")), w);
  remove =
      λ name w. (ok tt, if same name (lit "/token") then record w { has_token = false } else w);
  now = λ w. (lit "2024-01-01T00:00:00Z", w);
  cancelled = λ w. false;
  dir = λ path. lit "/";
  sum256 = λ s. 1 ∷ 255 ∷ [];
}

abbrev pub url : Bytes → Bytes → Bytes → Url
url scheme host path = record {
  scheme = scheme;
  host = host;
  has_user = false;
  path = path;
  raw_query = [];
  fragment = [];
}

-- A Core that answers a registration first, then heartbeats and one desired state.
abbrev pub web : Web World
web = record {
  parse_url = λ raw. ok (url [] [] raw);
  resolve_reference = λ base reference. record base { path = base.path ++ reference.path };
  url_string = λ u. u.scheme ++ (lit "://" ++ (u.host ++ u.path));
  check_request = λ method address. ok tt;
  send = λ r w. (
    ok (record {
      status = 200;
      body = record {
        available =
            if same r.method (lit "GET")
            then lit
                "{\"schema_version\":1,\"revision\":\"r1\",\"roles\":[\"web\"],\"capabilities\":[]}"
            else lit "{\"schema_version\":1,\"node_id\":\"n1\",\"agent_token\":\"secret\"}";
        failure = none;
      };
    }),
    record w { requests = suc w.requests },
  );
}

abbrev pub client : Client World
client = record {
  base_url = url (lit "https") (lit "core") (lit "/");
  web = web;
  user_agent = lit "lts-agent/1.0";
}

abbrev pub no_check : Check
no_check = record {
  available = false;
  status = lit "unavailable";
  exit_code = none;
  duration_ms = pos 0;
  output = [];
  truncated = false;
}

abbrev pub report : Report
report = record {
  agent = record { version = lit "1.0" };
  node = record { hostname = lit "h" };
  lbi = record {
    available = false;
    name = [];
    short = [];
    version = [];
    build = [];
    base_os = [];
    maintainer = [];
  };
  system = record { os = []; kernel = []; architecture = []; timezone = [] };
  assignment = record {
    available = false;
    schema_version = pos 0;
    roles = some [];
    capabilities = some [];
  };
  checks = record { validation = no_check; health = no_check };
  desired_state = none;
  core = none;
  warnings = [];
}

abbrev pub state : StateDocument
state = record { schema_version = pos 1; node_id = lit "n1"; agent_token = lit "secret" }
