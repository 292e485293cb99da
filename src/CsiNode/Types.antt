-- ===== src/CsiNode/Types.antt =====
-- The requests to the node side of the CSI driver, and the host: its files, mounts and commands.
use cluster_api_provider_clo.Prelude.{ℕ, String, Bool, Option, List, ℤ, Action}
use cluster_api_provider_clo.Prelude.Dict.{Dict}

-- `GetBlock()` or `GetMount()`, the latter with its file system and flags.
pub data Access : Type 0 where
  block_access : Access
  mount_access : String → List String → Access

-- The requests, with the capability and the publish context of those that have them; a capability
-- may be of neither kind.
pub record NodeStageVolumeRequest : Type 0 where
  pub volume_id : String
  pub staging_target_path : String
  pub volume_capability : Option (Option Access)
  pub publish_context : Dict String

pub record NodePublishVolumeRequest : Type 0 where
  pub volume_id : String
  pub target_path : String
  pub staging_target_path : String
  pub volume_capability : Option (Option Access)
  pub publish_context : Dict String
  pub readonly : Bool

-- `required_bytes` is that of the capacity range, if the request has one.
pub record NodeExpandVolumeRequest : Type 0 where
  pub volume_id : String
  pub volume_path : String
  pub required_bytes : Option ℤ

pub record MountPoint : Type 0 where
  pub device : String
  pub path : String

-- The counts of `unix.Statfs_t`.
pub record FilesystemStats : Type 0 where
  pub blocks : ℕ
  pub available_blocks : ℕ
  pub block_size : ℕ
  pub files : ℕ
  pub free_files : ℕ

-- The reads of single files are functions of the state; the other calls and the commands may change
-- it. A command that fails may have an exit code.
pub record Host (W : Type 0) : Type 0 where
  pub exists : String → W → Bool
  pub eval_symlinks : String → W → Option String
  pub mod_time : String → W → Option ℕ
  pub is_device : String → W → Bool
  pub glob_devices : Action W String (List String)
  pub list_mounts : Action W String (List MountPoint)
  pub mkdir_all : String → Action W String (Unit {0})
  pub create_file : String → Action W String (Unit {0})
  pub remove_all : String → Action W String (Unit {0})
  pub mount : String → String → String → List String → Action W String (Unit {0})
  pub unmount : String → Action W String (Unit {0})
  pub statfs : String → Action W String FilesystemStats
  pub blkid : String → Action W (Option ℕ) String
  pub run_command : String → List String → Action W String (Unit {0})
  pub sleep : W → W
  pub parent : String → String
