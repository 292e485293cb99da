-- ===== src/Cloud/Servers.antt =====
-- pkg/cloud/servers.go: reading, finding, starting, stopping and deleting servers.
pub mod Build
pub mod Create
pub mod Find
pub mod Store
pub mod Holds
pub mod Cloned
pub mod Cleanup
pub mod Remove
pub mod Meta
use cluster_api_provider_clo.Prelude.{
  ℕ, String, Bool, true, false, ◌||◌, ◌&&◌, not, Option, some, none, List, [], ◌∷◌, ◌++◌, nat_eq,
  ◌==◌, contains, contains_text, if◌then◌else◌, Action, Result, ok, err, ret, map_err, ◌>>=◌, ◌>>◌,
}
use cluster_api_provider_clo.Prelude.Dict.{Dict, lookup}
use cluster_api_provider_clo.CloudSdk.{ApiError, Ip, Server, ServerDrive, ServerNic}
use cluster_api_provider_clo.GoError.{Error, sdk, plain, wrap, permission_denied}
use cluster_api_provider_clo.Cloud.Types.{Client}
use cluster_api_provider_clo.Cloud.Drives.{has_status, delete_drive}
use cluster_api_provider_clo.Cloud.Network.{get_ip, delete_ip}

-- What `GetServer` makes of an error.
unfoldable pub classify : {W : Type 0} → Client W → String → ApiError → Result Error (Option Server)
classify c uuid e =
    let denied : Result Error (Option Server) =
      err (permission_denied "server" uuid 403 c.impersonated_user (sdk e)) in
    if has_status 404 e
    then ok none
    else if has_status 403 e
    then denied
    else if contains_text e.message "404" || contains_text e.message "not found"
    then ok none
    else if contains_text e.message "403" || contains_text e.message "permission"
    then denied
    else err (wrap "failed to get server" (sdk e))

-- The UUIDs of the drives and of the public IPs, as `DeleteServer` remembers them.
unfoldable pub drive_uuids : List ServerDrive → List String
drive_uuids [] = []
drive_uuids (sd ∷ sds) = elim sd.drive [
  | none ↦ drive_uuids sds
  | some drive ↦ drive.uuid ∷ drive_uuids sds
]

abbrev public_ip : ServerNic → Option String
public_ip nic = elim nic.vlan [ none ↦ nic.ip | some vlan ↦ none ]

unfoldable pub public_ips : List ServerNic → List String
public_ips [] = []
public_ips (nic ∷ nics) = elim (public_ip nic) [
  | none ↦ public_ips nics
  | some uuid ↦ uuid ∷ public_ips nics
]

-- The keys of the set `ipUUIDs`: the UUIDs that are not empty, each once.
unfoldable pub add_uuids : List String → List String → List String
unfolding contains
add_uuids [] known = known
add_uuids (uuid ∷ uuids) known =
    add_uuids uuids (if uuid == "" || contains known uuid then known else known ++ (uuid ∷ []))

abbrev configured_ips : List ServerNic → List String
configured_ips [] = []
configured_ips (nic ∷ nics) = elim nic.ip [
  | none ↦ configured_ips nics
  | some uuid ↦ uuid ∷ configured_ips nics
]

unfoldable pub server_ips : Server → List String
unfolding add_uuids
server_ips server = elim (add_uuids server.runtime_ips []) [
  | [] ↦ add_uuids (configured_ips server.nics) []
  | first ∷ more ↦ first ∷ more
]

-- The two loops of `FindServerByNameOrMeta`.
unfoldable pub find_by_meta : String → List Server → Option Server
unfolding lookup
find_by_meta machine_uid [] = none
find_by_meta machine_uid (server ∷ servers) = elim (lookup "machine-uid" server.meta) [
  | none ↦ find_by_meta machine_uid servers
  | some uid ↦ if uid == machine_uid then some server else find_by_meta machine_uid servers
]

unfoldable pub find_by_name : String → List Server → Option Server
find_by_name name [] = none
find_by_name name (server ∷ servers) =
    if server.name == name then some server else find_by_name name servers

unfoldable pub find_server : String → String → List Server → Option Server
unfolding find_by_meta find_by_name
find_server name machine_uid servers =
    elim (if machine_uid == "" then none else find_by_meta machine_uid servers) [
      | some server ↦ some server
      | none ↦ find_by_name name servers
    ]

module _ {W : Type 0} (c : Client W) where
  -- `GetServer`: `ok none` says that there is no such server.
  unfoldable pub get_server : String → Action W Error (Option Server)
  unfolding classify
  get_server uuid w =
      let (answer, w') = c.sdk.servers.get uuid w in
      elim answer [ ok server ↦ (ok (some server), w') | err e ↦ (classify c uuid e, w') ]

  -- The loop of `GetServerAddressesWithClient`: an IP that cannot be read is passed over. Where the
  -- answer is nil the code panics; here the result is `none`.
  unfoldable pub read_addresses : List String → List String → W → Option (List String) × W
  unfolding get_ip
  read_addresses [] addresses w = (some addresses, w)
  read_addresses (uuid ∷ uuids) addresses w =
      let (answer, w') = get_ip c uuid w in
      elim answer [
        | err e ↦ read_addresses uuids addresses w'
        | ok found ↦ elim found [
          | none ↦ (none, w')
          | some ip ↦
              read_addresses uuids
                (if ip.uuid == "" then addresses else addresses ++ (ip.uuid ∷ [])) w'
        ]
      ]

  -- `GetServerAddressesWithClient` of a server that is not nil: it returns no error.
  unfoldable pub get_server_addresses_with_client : Server → W → Option (List String) × W
  unfolding read_addresses server_ips
  get_server_addresses_with_client server = read_addresses (server_ips server) []

  -- `StartServer`
  unfoldable pub start_server : String → Action W Error (Unit {0})
  start_server uuid =
      map_err (λ e. wrap "failed to start server" (sdk e)) (c.sdk.servers.start uuid)

  -- `StopServer`
  unfoldable pub stop_server : String → Action W Error (Unit {0})
  stop_server uuid = map_err (λ e. wrap "failed to stop server" (sdk e)) (c.sdk.servers.stop uuid)

  -- "Clean up cloned drives": a drive that cannot be deleted is passed over.
  unfoldable pub delete_drives : List String → W → W
  unfolding delete_drive
  delete_drives [] w = w
  delete_drives (uuid ∷ uuids) w = delete_drives uuids (delete_drive c uuid w).1

  -- "Clean up allocated public IPs"
  unfoldable pub delete_ips : List String → W → W
  delete_ips [] w = w
  delete_ips (uuid ∷ uuids) w = delete_ips uuids (delete_ip c uuid w).1

  -- `DeleteServer` of a server that was read.
  unfoldable pub delete_found : String → Server → Action W Error (Unit {0})
  unfolding stop_server delete_drives delete_ips drive_uuids public_ips
  delete_found uuid server = do
    if server.status == "running"
        then map_err (wrap "failed to stop server before deletion") (stop_server uuid)
        else ret tt
    map_err (λ e. wrap "failed to delete server" (sdk e)) (c.sdk.servers.delete uuid)
    λ w. (ok tt, delete_ips (public_ips server.nics) (delete_drives (drive_uuids server.drives) w))

  abbrev pub after_reading : String → Result Error (Option Server) × W → Result Error (Unit {0}) × W
  after_reading uuid (err e, w) = (err e, w)
  after_reading uuid (ok none, w) = (ok tt, w)
  after_reading uuid (ok (some server), w) = delete_found uuid server w

  -- `DeleteServer`
  unfoldable pub delete_server : String → Action W Error (Unit {0})
  unfolding get_server delete_found
  delete_server uuid w = after_reading uuid (get_server uuid w)

  -- `ListServers`
  unfoldable pub list_servers : Action W Error (List Server)
  list_servers = map_err (λ e. wrap "failed to list servers" (sdk e)) c.sdk.servers.list

  -- `FindServerByNameOrMeta`
  unfoldable pub find_server_by_name_or_meta : String → String → Action W Error (Option Server)
  unfolding find_server
  find_server_by_name_or_meta name machine_uid = do
    servers ← map_err (λ e. wrap "failed to list servers" (sdk e)) c.sdk.servers.list
    ret (find_server name machine_uid servers)

  -- `FindServerByName`
  unfoldable pub find_server_by_name : String → Action W Error (Option Server)
  unfolding find_server_by_name_or_meta
  find_server_by_name name = find_server_by_name_or_meta name ""
