-- ===== src/CsiNode/Volumes.antt =====
-- csi/driver/node.go: the calls of the node service. The handler of the staging is one step, as
-- under its lock.
use cluster_api_provider_clo.Prelude.{
  ℕ, ◌*◌, ◌-◌, String, not, Option, some, none, List, [], ◌∷◌, ◌==◌, ℤ, if◌then◌else◌, Action, ret,
  fail, map_err, attempt, guard, ◌>>=◌, ◌>>◌,
}
use cluster_api_provider_clo.Prelude.Dict.{Dict, lookup}
use cluster_api_provider_clo.Csi.Types.{
  Failure, status, panic, invalid_argument, internal, not_found, PublishContext,
}
use cluster_api_provider_clo.Csi.Volume.{topology_key}
use cluster_api_provider_clo.CsiNode.Types.{
  Access, block_access, mount_access, NodeStageVolumeRequest, NodePublishVolumeRequest,
  NodeExpandVolumeRequest, FilesystemStats, Host,
}
use cluster_api_provider_clo.CsiNode.Devices.{
  find_device_by_path, is_mounted, is_formatted, format_device, get_device_from_mount_point,
  resize_filesystem,
}

-- The map that `ControllerPublishVolume` answers with.
abbrev pub context_map : PublishContext → Dict String
context_map context = ("channel", context.channel) ∷ ("volumeId", context.volume_id) ∷ []

-- `req.PublishContext["devicePath"]`
unfoldable pub device_path_of : Dict String → String
unfolding lookup
device_path_of context = elim (lookup "devicePath" context) [ none ↦ "" | some path ↦ path ]

abbrev pub or_ext4 : String → String
or_ext4 fs_type = if fs_type == "" then "ext4" else fs_type

-- `MaxVolumesPerNode`, and the total, used and available amounts of `csi.VolumeUsage`.
abbrev pub max_volumes_per_node : ℕ
max_volumes_per_node = 15

pub record VolumeUsage : Type 0 where
  pub total : ℕ
  pub used : ℕ
  pub available : ℕ

-- `NodeGetVolumeStats` behind its call: bytes and inodes.
unfoldable pub volume_usage : FilesystemStats → VolumeUsage × VolumeUsage
volume_usage stats = (
  record {
    total = stats.blocks * stats.block_size;
    used = stats.blocks * stats.block_size - stats.available_blocks * stats.block_size;
    available = stats.available_blocks * stats.block_size;
  },
  record {
    total = stats.files;
    used = stats.files - stats.free_files;
    available = stats.free_files;
  },
)

module _ {W : Type 0} (host : Host W) where
  abbrev internally : {A : Type 0} → Action W String A → Action W Failure A
  internally = map_err (λ e. status internal)

  -- "Format if needed" and "Mount the device"
  unfoldable pub format_and_mount :
      String → String → String → List String → Action W Failure (Unit {0})
  unfolding is_formatted format_device
  format_and_mount device path fs_type flags = do
    formatted ← internally (is_formatted host device)
    if formatted then ret tt else internally (format_device host device fs_type)
    internally (host.mount device path fs_type flags)

  -- `NodeStageVolume` for a file system, on its device.
  unfoldable pub stage_filesystem :
      String → String → String → List String → Action W Failure (Unit {0})
  unfolding format_and_mount is_mounted
  stage_filesystem device path fs_type flags = do
    internally (host.mkdir_all path)
    mounted ← internally (is_mounted host path)
    if mounted then ret tt else format_and_mount device path fs_type flags

  unfoldable pub stage_on : String → Option Access → String → Action W Failure (Unit {0})
  unfolding stage_filesystem
  stage_on path none device = fail (status invalid_argument)
  stage_on path (some block_access) device = ret tt
  stage_on path (some (mount_access fs_type flags)) device =
      stage_filesystem device path (or_ext4 fs_type) flags

  -- `NodeStageVolume` with its volume capability.
  unfoldable pub stage_with : NodeStageVolumeRequest → Option Access → Action W Failure (Unit {0})
  unfolding find_device_by_path stage_on
  stage_with req access = do
    device ← map_err (λ e. status invalid_argument) (find_device_by_path host req.publish_context)
    λ w.
        (if host.exists device w
            then stage_on req.staging_target_path access device
            else fail (status not_found))
          w

  -- `NodeStageVolume`
  unfoldable pub node_stage_volume : NodeStageVolumeRequest → Action W Failure (Unit {0})
  unfolding stage_with
  node_stage_volume req = do
    guard (not (req.volume_id == "")) (status invalid_argument)
    guard (not (req.staging_target_path == "")) (status invalid_argument)
    elim req.volume_capability [
      | none ↦ fail (status invalid_argument)
      | some access ↦ stage_with req access
    ]

  -- The unmounting of `NodeUnstageVolume` and `NodeUnpublishVolume`.
  unfoldable pub unmount_if_mounted : String → Action W Failure (Unit {0})
  unfolding is_mounted
  unmount_if_mounted path = do
    mounted ← internally (is_mounted host path)
    if mounted then internally (host.unmount path) else ret tt

  -- `NodeUnstageVolume`
  unfoldable pub node_unstage_volume : String → String → Action W Failure (Unit {0})
  unfolding unmount_if_mounted
  node_unstage_volume volume_id staging_target_path = do
    guard (not (volume_id == "")) (status invalid_argument)
    guard (not (staging_target_path == "")) (status invalid_argument)
    unmount_if_mounted staging_target_path

  -- `NodePublishVolume` for a block volume, whose device the publish context has to name.
  unfoldable pub publish_block : NodePublishVolumeRequest → Action W Failure (Unit {0})
  unfolding device_path_of
  publish_block req = do
    let device = device_path_of req.publish_context
    guard (not (device == "")) (status invalid_argument)
    internally (host.mkdir_all (host.parent req.target_path))
    internally (host.create_file req.target_path)
    internally (host.mount device req.target_path "" ("bind" ∷ []))

  -- `NodePublishVolume` for a file system.
  unfoldable pub publish_filesystem : NodePublishVolumeRequest → Action W Failure (Unit {0})
  unfolding is_mounted
  publish_filesystem req = do
    guard (not (req.staging_target_path == "")) (status invalid_argument)
    internally (host.mkdir_all req.target_path)
    mounted ← internally (is_mounted host req.target_path)
    if mounted
        then ret tt
        else internally (
            host.mount req.staging_target_path req.target_path ""
              (if req.readonly then "bind" ∷ "ro" ∷ [] else "bind" ∷ []))

  unfoldable pub publish_as : NodePublishVolumeRequest → Option Access → Action W Failure (Unit {0})
  unfolding publish_block publish_filesystem
  publish_as req none = publish_filesystem req
  publish_as req (some block_access) = publish_block req
  publish_as req (some (mount_access fs_type flags)) = publish_filesystem req

  -- `NodePublishVolume`
  unfoldable pub node_publish_volume : NodePublishVolumeRequest → Action W Failure (Unit {0})
  unfolding publish_as
  node_publish_volume req = do
    guard (not (req.volume_id == "")) (status invalid_argument)
    guard (not (req.target_path == "")) (status invalid_argument)
    elim req.volume_capability [
      | none ↦ fail (status invalid_argument)
      | some access ↦ publish_as req access
    ]

  -- `NodeUnpublishVolume`; the path that cannot be removed is only logged.
  unfoldable pub node_unpublish_volume : String → String → Action W Failure (Unit {0})
  unfolding unmount_if_mounted
  node_unpublish_volume volume_id target_path = do
    guard (not (volume_id == "")) (status invalid_argument)
    guard (not (target_path == "")) (status invalid_argument)
    unmount_if_mounted target_path
    attempt (host.remove_all target_path)
    ret tt

  -- `NodeGetVolumeStats`
  unfoldable pub node_get_volume_stats :
      String → String → Action W Failure (VolumeUsage × VolumeUsage)
  unfolding volume_usage
  node_get_volume_stats volume_id volume_path = do
    guard (not (volume_id == "")) (status invalid_argument)
    guard (not (volume_path == "")) (status invalid_argument)
    λ w. guard (host.exists volume_path w) (status not_found) w
    stats ← internally (host.statfs volume_path)
    ret (volume_usage stats)

  -- `NodeExpandVolume`: with no capacity range it dereferences nil at the end.
  unfoldable pub node_expand_volume : NodeExpandVolumeRequest → Action W Failure ℤ
  unfolding get_device_from_mount_point resize_filesystem
  node_expand_volume req = do
    guard (not (req.volume_id == "")) (status invalid_argument)
    guard (not (req.volume_path == "")) (status invalid_argument)
    device ← internally (get_device_from_mount_point host req.volume_path)
    internally (resize_filesystem host device req.volume_path)
    elim req.required_bytes [ none ↦ fail panic | some bytes ↦ ret bytes ]

  -- `NodeGetInfo`: the node, the limit of its volumes and its topology.
  unfoldable pub node_get_info : String → String → String × (ℕ × Dict String)
  node_get_info node_id region = (node_id, (max_volumes_per_node, (topology_key, region) ∷ []))
