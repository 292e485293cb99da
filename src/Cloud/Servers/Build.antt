-- ===== src/Cloud/Servers/Build.antt =====
-- pkg/cloud/servers.go: the document that `CreateServer` sends.
use cluster_api_provider_clo.Prelude.{
  ℕ, ◌*◌, String, ◌<>◌, Option, some, none, List, [], ◌∷◌, ◌==◌, decimal, if◌then◌else◌,
}
use cluster_api_provider_clo.Prelude.Dict.{Dict, insert}
use cluster_api_provider_clo.Cloud.Types.{CustomServer, CustomServerDrive, CustomServerNic}
use cluster_api_provider_clo.Cloud.Custom.{dhcp_nic}

-- `CloudSigmaDisk`
pub record Disk : Type 0 where
  pub uuid : String
  pub device : String
  pub boot_order : ℕ
  pub size : ℕ

-- `CloudSigmaNIC`, with the UUID of `IPv4Conf.IP`.
pub record Nic : Type 0 where
  pub vlan : String
  pub conf : String
  pub ip : Option String

-- `ServerSpec`
pub record ServerSpec : Type 0 where
  pub name : String
  pub cpu : ℕ
  pub memory : ℕ
  pub disks : List Disk
  pub nics : List Nic
  pub tags : List String
  pub meta : Dict String
  pub bootstrap_data : String

-- A disk with the drive that was cloned for it.
unfoldable pub server_drive : Disk → String → CustomServerDrive
unfolding decimal
server_drive disk drive_uuid = record {
  boot_order = disk.boot_order;
  dev_channel = "0:" <> decimal disk.boot_order;
  device = disk.device;
  drive = drive_uuid;
}

-- "Add cloned disks"
unfoldable pub server_drives : List Disk → List String → List CustomServerDrive
unfolding server_drive
server_drives [] uuids = []
server_drives (disk ∷ disks) [] = []
server_drives (disk ∷ disks) (uuid ∷ uuids) = server_drive disk uuid ∷ server_drives disks uuids

abbrev static_ip : Option String → Option String
static_ip none = none
static_ip (some uuid) = if uuid == "" then none else some uuid

unfoldable pub server_nic : Nic → CustomServerNic
server_nic nic = if nic.vlan == "" then dhcp_nic else record {
  vlan = nic.vlan;
  ip_v4_conf =
      if nic.conf == "" then none else some (record { conf = nic.conf; ip = static_ip nic.ip });
}

unfoldable pub server_nics : List Nic → List CustomServerNic
unfolding server_nic
server_nics [] = []
server_nics (nic ∷ nics) = server_nic nic ∷ server_nics nics

abbrev pub nics_or_public : List CustomServerNic → List CustomServerNic
nics_or_public [] = dhcp_nic ∷ []
nics_or_public (nic ∷ nics) = nic ∷ nics

-- `for k, v := range entries { m[k] = v }`
unfoldable pub insert_all : Dict String → Dict String → Dict String
unfolding insert
insert_all [] m = m
insert_all ((k, v) ∷ entries) m = insert_all entries (insert k v m)

-- "Add metadata (cloud-init)"
unfoldable pub cloud_init : String → Dict String
unfolding insert
cloud_init bootstrap_data =
    if bootstrap_data == ""
    then []
    else insert "cloudinit-user-data" bootstrap_data
        (insert "base64_fields" "cloudinit-user-data" [])

-- The server that `CreateServer` builds from its spec and the UUIDs of the cloned drives.
unfoldable pub build_server : ServerSpec → List String → CustomServer
unfolding server_drives server_nics insert_all cloud_init
build_server spec cloned = record {
  name = spec.name;
  cpu = spec.cpu;
  mem = spec.memory * 1024 * 1024;
  vnc_password = "kubernetes";
  drives = server_drives spec.disks cloned;
  nics = nics_or_public (server_nics spec.nics);
  meta = insert_all spec.meta (cloud_init spec.bootstrap_data);
}
