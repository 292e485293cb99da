-- ===== src/CsiNode/Examples.antt =====
-- Runs of the node service on a host in memory, and the theorem at concrete data.
use cluster_api_provider_clo.Prelude.{
  ◌≡◌, refl, sym, subst, ==_iff, contains_text, ◌==◌, Bool, true, false, Bool-cases, inl, inr, some,
  List, [], ◌∷◌, ok, err, if◌then◌else◌, arith, contains, String,
}
use cluster_api_provider_clo.Prelude.Dict.{lookup, insert}
use cluster_api_provider_clo.CsiNode.Types.{
  block_access, mount_access, NodeStageVolumeRequest, NodePublishVolumeRequest, Host,
}
use cluster_api_provider_clo.CsiNode.Content.{Tells, IsLawful, node_stage_volume_keeps}
use cluster_api_provider_clo.CsiNode.Volumes.{
  node_stage_volume, stage_with, stage_on, stage_filesystem, format_and_mount, context_map,
  node_publish_volume, publish_as, publish_block, device_path_of,
}
use cluster_api_provider_clo.Csi.Types.{status, invalid_argument}
use cluster_api_provider_clo.CsiNode.Devices.{
  find_device_by_path, resolve_all, mounted_devices, candidates, choose, newest, is_mounted,
  device_at, is_formatted, is_blank, format_device, take_or,
}
use cluster_api_provider_clo.LoadBalancer.Nodes.{ends_with}

-- The devices that hold a file system.
abbrev device_of : List String → String
device_of [] = ""
device_of (flag ∷ []) = flag
device_of (flag ∷ device ∷ more) = device

abbrev holds : String → List String → Bool
unfolding contains
holds device held = contains held device

abbrev machine : Host (List String)
unfolding contains
machine = record {
  exists = λ path held. true;
  eval_symlinks = λ path held.
      some (if path == "/dev/disk/by-path/virtio-pci-1" then "/dev/vda" else "/dev/vdb");
  mod_time = λ path held. some 1;
  is_device = λ path held. true;
  glob_devices =
      λ held. (ok ("/dev/disk/by-path/virtio-pci-1" ∷ "/dev/disk/by-path/virtio-pci-2" ∷ []), held);
  list_mounts = λ held. (ok [], held);
  mkdir_all = λ path held. (ok tt, held);
  create_file = λ path held. (ok tt, held);
  remove_all = λ path held. (ok tt, held);
  mount = λ source target fs_type options held. (ok tt, held);
  unmount = λ path held. (ok tt, held);
  statfs = λ path held. (err "statfs", held);
  blkid = λ device held. (if contains held device then ok "ext4" else err (some 2), held);
  run_command = λ command arguments held. (ok tt, device_of arguments ∷ held);
  sleep = λ held. held;
  parent = λ path. path;
}

blkid-Tells :
    (device : String) (held : List String) → Tells (holds device held) (machine.blkid device held).0
unfolding contains is_blank ◌==◌
blkid-Tells device held = elim (Bool-cases (contains held device)) [
  | inl present ↦ subst (λ b. Tells b (if b then ok "ext4" else err (some 2))) (sym present) (tt)
  | inr absent ↦ subst (λ b. Tells b (if b then ok "ext4" else err (some 2))) (sym absent) refl
]

machine-IsLawful : IsLawful machine holds
unfolding contains
machine-IsLawful = record {
  blkid_tells = blkid-Tells;
  blkid_keeps = λ device other held. refl;
  format_keeps = λ command flag device other held apart. ground (arith, ==_iff device other, apart);
  glob_keeps = λ other held. refl;
  list_keeps = λ other held. refl;
  mkdir_keeps = λ path other held. refl;
  mount_keeps = λ source target fs_type options other held. refl;
  sleep_keeps = λ other held. refl;
}

abbrev request : NodeStageVolumeRequest
request = record {
  volume_id = "volume";
  staging_target_path = "/staging";
  volume_capability = some (some (mount_access "ext4" []));
  publish_context = ("channel", "0:1") ∷ ("volumeId", "volume") ∷ [];
}

staged : node_stage_volume machine request ("/dev/vda" ∷ []) ≡ (ok tt, "/dev/vdb" ∷ "/dev/vda" ∷ [])
unfolding node_stage_volume stage_with find_device_by_path resolve_all mounted_devices candidates
    choose take_or newest stage_on stage_filesystem is_mounted device_at format_and_mount
    is_formatted is_blank format_device lookup insert ends_with contains contains_text ◌==◌
staged = refl

node_stage_volume_keeps_example :
    holds "/dev/vda" (node_stage_volume machine request ("/dev/vda" ∷ [])).1
    ≡ holds "/dev/vda" ("/dev/vda" ∷ [])
unfolding contains ◌==◌
node_stage_volume_keeps_example =
    node_stage_volume_keeps machine holds machine-IsLawful "/dev/vda" request ("/dev/vda" ∷ [])
      (inl refl)

-- A block volume that `ControllerPublishVolume` has attached is refused by `NodePublishVolume`.
abbrev block_request : NodePublishVolumeRequest
block_request = record {
  volume_id = "volume";
  target_path = "/target";
  staging_target_path = "/staging";
  volume_capability = some (some block_access);
  publish_context = context_map (record { channel = "0:1"; volume_id = "volume" });
  readonly = false;
}

block_refused : node_publish_volume machine block_request [] ≡ (err (status invalid_argument), [])
unfolding node_publish_volume publish_as publish_block device_path_of lookup ◌==◌
block_refused = refl
