-- ===== src/Sync/Files.antt =====
-- internal/coresync/sync.go: the files that hold secrets, and the node's fingerprint.
use lts_agent.Base.{
  ℕ, ◌%◌, Bool, ◌&&◌, ◌||◌, not, Bytes, ◌++◌, lit, ◌==◌, if◌then◌else◌, all, length, map, is_empty,
}
use lts_agent.Go.Errors.{text, wrap, state_not_found, is_not_exist, Result, ok, err, require}
use lts_agent.Go.Action.{Action, pure, lift, wrapped, ◌>>=◌, ◌>>◌}
use lts_agent.Go.Numbers.{is_hex_digit, hex_encode}
use lts_agent.Go.Strings.{trim_space, lower_byte}
use lts_agent.Go.Json.Encode.{encode}
use lts_agent.Sync.Token.{StateDocument, refuse_bearer}
use lts_agent.Sync.State.{parse_state, state_value}

abbrev pub default_machine_id_path : Bytes
default_machine_id_path = lit "/etc/machine-id"

pub record Options : Type 0 where
  pub enabled : Bool
  pub agent_version : Bytes
  pub machine_id_path : Bytes
  pub enrollment_token_file : Bytes
  pub state_file : Bytes

-- `os.FileInfo`: the mode's type bits that the code tests, and its permission bits.
pub record FileInfo : Type 0 where
  pub is_symlink : Bool
  pub is_regular : Bool
  pub is_dir : Bool
  pub perm : ℕ

-- The filesystem and the clock, over a state `W` of the outside world. An open temporary file is
-- known by its name. `now` is the time in UTC as RFC 3339 text, `cancelled` is `ctx.Err() != nil`,
-- `dir` is `filepath.Dir` and `sum256` is `sha256.Sum256`.
pub record Dependencies (W : Type 0) : Type 0 where
  pub read_file : Bytes → Action W Bytes
  pub lstat : Bytes → Action W FileInfo
  pub mkdir_all : Bytes → ℕ → Action W (Unit {0})
  pub create_temp : Bytes → Bytes → Action W Bytes
  pub chmod : Bytes → ℕ → Action W (Unit {0})
  pub write : Bytes → Bytes → Action W (Unit {0})
  pub sync_file : Bytes → Action W (Unit {0})
  pub close : Bytes → Action W (Unit {0})
  pub rename : Bytes → Bytes → Action W (Unit {0})
  pub remove : Bytes → Action W (Unit {0})
  pub now : W → Bytes × W
  pub cancelled : W → Bool
  pub dir : Bytes → Bytes
  pub sum256 : Bytes → Bytes

-- `NewWithDependencies`, on the options.
unfoldable pub with_defaults : Options → Options
with_defaults options =
    if is_empty options.machine_id_path
    then record options { machine_id_path = default_machine_id_path }
    else options

-- `info.Mode().Perm()&0o077 == 0`: the low six bits of the mode are clear.
abbrev pub is_private : FileInfo → Bool
is_private info = info.perm % 64 == 0

unfoldable pub validate_secret_file : FileInfo → Bytes → Result (Unit {0})
validate_secret_file info name =
    if info.is_symlink || not info.is_regular
    then err (text (name ++ lit " must be a regular non-symlink file"))
    else require (is_private info)
        (text (name ++ lit " permissions must not grant group or world access"))

module _ {W : Type 0} (options : Options) (deps : Dependencies W) where
  unfoldable pub fingerprint : Action W Bytes
  fingerprint = do
    contents ← wrapped (lit "read machine ID: ") (deps.read_file options.machine_id_path)
    let machine_id = trim_space contents
    lift (
        require (length machine_id == 32 && all is_hex_digit machine_id)
          (text (lit "machine ID must contain 32 hexadecimal characters")))
    pure (hex_encode (deps.sum256 (lit "lts-agent-registration-v1:" ++ map lower_byte machine_id)))

  -- `Lstat` of the state file, where a missing file is the sentinel.
  unfoldable pub inspect_state : Action W FileInfo
  inspect_state w =
      let (r, w') = deps.lstat options.state_file w in
      elim r [
        | ok info ↦ (ok info, w')
        | err e ↦
            if is_not_exist e
            then (err state_not_found, w')
            else (err (wrap (lit "inspect Core state: ") e), w')
      ]

  unfoldable pub load_state : Action W StateDocument
  load_state = do
    info ← inspect_state
    lift (validate_secret_file info (lit "Core state"))
    contents ← wrapped (lit "read Core state: ") (deps.read_file options.state_file)
    lift (parse_state contents)

  unfoldable pub read_secret : Bytes → Bytes → Action W Bytes
  read_secret path name = do
    info ← wrapped (lit "inspect " ++ (name ++ lit ": ")) (deps.lstat path)
    lift (validate_secret_file info name)
    contents ← wrapped (lit "read " ++ (name ++ lit ": ")) (deps.read_file path)
    let token = trim_space contents
    lift (refuse_bearer token (name ++ lit " is invalid"))
    pure token

  -- The directory of the state file, made and checked.
  unfoldable pub prepare_directory : Bytes → Action W (Unit {0})
  prepare_directory directory = do
    deps.mkdir_all directory 0o700
    info ← deps.lstat directory
    lift (
        require (info.is_dir && not info.is_symlink)
          (text (lit "state directory must be a non-symlink directory")))
    lift (
        require (is_private info)
          (text (lit "state directory permissions must not grant group or world access")))

  -- `writeState` behind `CreateTemp`, without the deferred cleaning up.
  unfoldable pub fill_and_rename : Bytes → StateDocument → Action W (Unit {0})
  fill_and_rename temporary state = do
    deps.chmod temporary 0o600
    deps.write temporary (encode (state_value state))
    deps.sync_file temporary
    deps.close temporary
    deps.rename temporary options.state_file

  -- The deferred function: on an error the temporary file is closed and removed.
  unfoldable pub clean_up : Bytes → Result (Unit {0}) → Action W (Unit {0})
  clean_up temporary (ok _) w = (ok tt, w)
  clean_up temporary (err e) w = (err e, (deps.remove temporary (deps.close temporary w).1).1)

  unfoldable pub write_state : StateDocument → Action W (Unit {0})
  write_state state = do
    let directory = deps.dir options.state_file
    prepare_directory directory
    temporary ← deps.create_temp directory (lit ".state-*")
    (λ w. let (r, w') = fill_and_rename temporary state w in clean_up temporary r w')
