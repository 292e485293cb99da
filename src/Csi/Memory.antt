-- ===== src/Csi/Memory.antt =====
-- A cloud in memory that meets the laws on drives and on servers. A drive has its name for UUID.
use cluster_api_provider_clo.Prelude.{
  ◌≡◌, refl, ap, ◌≢◌, String, Option, some, none, List, [], ◌∷◌, ◌++◌, ◌==◌, ==_iff, if◌then◌else◌,
  ok, err, arith, contains_text, Action,
}
use cluster_api_provider_clo.Prelude.Dict.{Dict, lookup, insert, lookup-insert}
use cluster_api_provider_clo.CloudSdk.{ApiError, Drive, Server, ServerDrive, SdkClient}
use cluster_api_provider_clo.Csi.Volume.Store as DriveStore
use cluster_api_provider_clo.Csi.Volume.Store.{drive_by_uuid}
use cluster_api_provider_clo.Csi.Attach.Store as ServerStore

pub record Cloud : Type 0 where
  pub drives : List Drive
  pub servers : Dict (List ServerDrive)

abbrev pub missing : ApiError
missing = record { status_code = some 404; message = "404" }

abbrev pub server_of : String → List ServerDrive → Server
server_of id sds = record {
  uuid = id;
  name = id;
  status = "running";
  drives = sds;
  nics = [];
  meta = [];
  runtime_ips = [];
}

abbrev pub drives_of : String → Cloud → Option (List ServerDrive)
drives_of id c = lookup id c.servers

without_drive : String → List Drive → List Drive
without_drive uuid [] = []
without_drive uuid (drive ∷ drives) =
    let rest = without_drive uuid drives in if drive.uuid == uuid then rest else drive ∷ rest

abbrev named : Drive → Drive
named drive = record drive { uuid = drive.name }

abbrev create_all : List Drive → List Drive
create_all [] = []
create_all (body ∷ bodies) = named body ∷ create_all bodies

get_drive : String → Action Cloud ApiError Drive
get_drive uuid c = elim (drive_by_uuid uuid c.drives) [
  | none ↦ (err missing, c)
  | some drive ↦ (ok drive, c)
]

get_server : String → Action Cloud ApiError Server
get_server id c = elim (drives_of id c) [
  | none ↦ (err missing, c)
  | some sds ↦ (ok (server_of id sds), c)
]

update_server : String → Server → Action Cloud ApiError Server
update_server id server c = elim (drives_of id c) [
  | none ↦ (err missing, c)
  | some sds ↦ (ok server, record c { servers = insert id server.drives c.servers })
]

unfoldable pub cloud : SdkClient Cloud
unfolding get_drive get_server update_server without_drive lookup insert drive_by_uuid
cloud = record {
  drives = record {
    get = get_drive;
    list = λ c. (ok c.drives, c);
    create =
        λ bodies c. (ok (create_all bodies), record c { drives = c.drives ++ create_all bodies });
    clone = λ uuid body c. (err missing, c);
    resize = λ uuid body c. (ok body, c);
    delete = λ uuid c. (ok tt, record c { drives = without_drive uuid c.drives });
  };
  servers = record {
    get = get_server;
    list = λ c. (ok [], c);
    update = update_server;
    start = λ id c. (ok tt, c);
    stop = λ id c. (ok tt, c);
    delete = λ id c. (ok tt, c);
  };
  tags = record {
    list = λ c. (ok [], c);
    update = λ uuid body c. (ok body, c);
    create = λ bodies c. (ok bodies, c);
  };
  ips = record { list = λ c. (ok [], c); get = λ uuid c. (err missing, c) };
  vlans = record { get = λ uuid c. (err missing, c); list = λ c. (ok [], c) };
  get_profile = λ c. (ok tt, c);
}

drive_by_uuid-without_drive :
    (uuid : String) (drives : List Drive) → drive_by_uuid uuid (without_drive uuid drives) ≡ none
unfolding drive_by_uuid without_drive
drive_by_uuid-without_drive uuid [] = refl
drive_by_uuid-without_drive uuid (drive ∷ drives) =
    ground (arith, drive_by_uuid-without_drive uuid drives)

get_drive-Reads :
    (uuid : String) (c : Cloud)
    → DriveStore.Reads (drive_by_uuid uuid c.drives) (get_drive uuid c).0
unfolding get_drive contains_text
get_drive-Reads uuid c = ground arith

get_drive_keeps : (uuid : String) (c : Cloud) → (get_drive uuid c).1 ≡ c
unfolding get_drive
get_drive_keeps uuid c = ground arith

get_server-Reads :
    (id : String) (c : Cloud) → ServerStore.Reads (drives_of id c) (get_server id c).0
unfolding get_server contains_text
get_server-Reads id c = ground arith

get_server_keeps : (id : String) (c : Cloud) → (get_server id c).1 ≡ c
unfolding get_server
get_server_keeps id c = ground arith

update_server-Puts :
    (id : String) (server : Server) (c : Cloud)
    → ServerStore.Puts
        (drives_of id c)
        server.drives
        (drives_of id (update_server id server c).1)
        (update_server id server c).0
unfolding update_server
update_server-Puts id server c =
    ground (arith, lookup-insert id id server.drives c.servers, ==_iff id id)

update_server_keeps :
    (id other : String) (server : Server) (c : Cloud)
    → id ≢ other
    → drives_of other (update_server id server c).1 ≡ drives_of other c
unfolding update_server
update_server_keeps id other server c h =
    ground (arith, lookup-insert id other server.drives c.servers, ==_iff id other)

pub cloud-IsLawful_drives : DriveStore.IsLawful cloud (λ c. c.drives)
unfolding cloud
cloud-IsLawful_drives = record {
  list_shows = λ c. refl;
  list_keeps = λ c. refl;
  get_reads = get_drive-Reads;
  get_keeps = λ uuid c. ap (λ (k : Cloud). k.drives) (get_drive_keeps uuid c);
  create_adds = λ body c. (refl, refl);
  delete_removes = λ uuid c. drive_by_uuid-without_drive uuid c.drives;
  tag_list_keeps = λ c. refl;
  tag_update_keeps = λ uuid body c. refl;
  tag_create_keeps = λ bodies c. refl;
}

pub cloud-IsLawful_servers : ServerStore.IsLawful cloud drives_of
unfolding cloud
cloud-IsLawful_servers = record {
  get_reads = get_server-Reads;
  get_keeps = λ id other c. ap (drives_of other) (get_server_keeps id c);
  update_puts = update_server-Puts;
  update_keeps = update_server_keeps;
  drive_get_keeps = λ id other c. ap (drives_of other) (get_drive_keeps id c);
}
