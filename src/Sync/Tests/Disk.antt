-- ===== src/Sync/Tests/Disk.antt =====
-- A small disk that meets the laws of a filesystem, for internal/coresync/sync.go.
use lts_agent.Base.{
  ◌≡◌, refl, ap, ◌∙◌, subst, false, Bytes, [], ◌∷◌, ◌++◌, Option, none, some, lit, same, same_iff,
  if◌then◌else◌,
}
use lts_agent.Go.Errors.{Result, ok, err, not_exist}
use lts_agent.Client.{Client}
use lts_agent.Sync.Files.{Dependencies, FileInfo}
use lts_agent.Sync.Durable.{IsFileSystem}
use lts_agent.Sync.Tests.Node.{url, regular, directory}

-- What stands under each name.
abbrev pub Disk : Type 0
Disk = Bytes → Option (FileInfo × Bytes)

unfoldable pub update : Disk → Bytes → Option (FileInfo × Bytes) → Disk
update w name found other = if same other name then found else w other

pub update-same :
    (w : Disk) (name : Bytes) (found : Option (FileInfo × Bytes)) → update w name found name ≡ found
unfolding update
update-same w name found = rw ((same_iff name name).1 refl) refl

unfoldable look : {A : Type 0} → (FileInfo × Bytes → A) → Option (FileInfo × Bytes) → Result A
look part none = err (not_exist (lit "no file"))
look part (some found) = ok (part found)

unfoldable on_file :
    (FileInfo × Bytes → FileInfo × Bytes) → Option (FileInfo × Bytes) → Option (FileInfo × Bytes)
on_file f none = none
on_file f (some found) = some (f found)

unfoldable pub disk : Dependencies Disk
unfolding look update on_file
disk = record {
  read_file = λ path w. (look (λ found. found.1) (w path), w);
  lstat = λ path w. (look (λ found. found.0) (w path), w);
  mkdir_all = λ path mode w. (ok tt, w);
  create_temp =
      λ dir pattern w. (ok (lit "/.state-1"), update w (lit "/.state-1") (some (regular, [])));
  chmod = λ name mode w. (
    ok tt,
    update w name (on_file (λ found. (record found.0 { perm = mode }, found.1)) (w name)),
  );
  write = λ name s w. (ok tt, update w name (on_file (λ found. (found.0, found.1 ++ s)) (w name)));
  sync_file = λ name w. (ok tt, w);
  close = λ name w. (ok tt, w);
  rename = λ from to w. (ok tt, update w to (w from));
  remove = λ name w. (ok tt, update w name none);
  now = λ w. (lit "2024-01-01T00:00:00Z", w);
  cancelled = λ w. false;
  dir = λ path. lit "/";
  sum256 = λ s. 1 ∷ 255 ∷ [];
}

pub made :
    (w : Disk) (name : Bytes)
    → ok (lit "/.state-1") ≡ ok name
    → update w (lit "/.state-1") (some (regular, [])) name ≡ some (regular, [])
made w name h =
    let e : lit "/.state-1" ≡ name = cc in
    subst (λ n. update w (lit "/.state-1") (some (regular, [])) n ≡ some (regular, [])) e
      (update-same w (lit "/.state-1") (some (regular, [])))

unfoldable pub disk-IsFileSystem : IsFileSystem disk
unfolding disk look on_file
disk-IsFileSystem = record {
  file = λ w. w;
  created = λ dir pattern name w h. (regular, refl, refl, made w name h);
  changed = λ name mode w info contents _ h. update-same w name _ ∙ ap (on_file _) h;
  written = λ name s w info contents _ h. update-same w name _ ∙ ap (on_file _) h;
  flushed = λ name w found _ h. h;
  closed = λ name w found _ h. h;
  renamed = λ from to w found _ h. update-same w to (w from) ∙ h;
  inspected = λ name w info contents h. (ap (look (λ found. found.0)) h, h);
  read = λ name w info contents h. ap (look (λ found. found.1)) h;
}

-- A directory, an enrollment token and a machine id.
unfoldable pub start : Disk
start name =
    if same name (lit "/")
    then some (directory, [])
    else if same name (lit "/token")
    then some (regular, lit "enroll\n")
    else if same name (lit "/etc/machine-id")
    then some (regular, lit "0123456789abcdef0123456789ABCDEF\n")
    else none

-- A Core that answers every request with a registration.
abbrev pub disk_client : Client Disk
disk_client = record {
  base_url = url (lit "https") (lit "core") (lit "/");
  web = record {
    parse_url = λ raw. ok (url [] [] raw);
    resolve_reference = λ base reference. record base { path = base.path ++ reference.path };
    url_string = λ u. u.scheme ++ (lit "://" ++ (u.host ++ u.path));
    check_request = λ method address. ok tt;
    send = λ r w. (
      ok (record {
        status = 200;
        body = record {
          available = lit "{\"schema_version\":1,\"node_id\":\"n1\",\"agent_token\":\"secret\"}";
          failure = none;
        };
      }),
      w,
    );
  };
  user_agent = lit "lts-agent/1.0";
}
