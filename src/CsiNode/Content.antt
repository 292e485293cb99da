-- ===== src/CsiNode/Content.antt =====
-- Staging leaves every file system alone that is on a device, and the boot disk.
use cluster_api_provider_clo.CsiNode.Boot.{find_device_by_path_data}
use cluster_api_provider_clo.Prelude.{
  ℕ, zero, suc, ◌≡◌, ◌≢◌, refl, ap, ◌⊎◌, ◌∙◌, String, Bool, true, false, Option, some, none, List,
  [], ◌∷◌, nat_eq, if◌then◌else◌, Result, ok, err, arith, Result-cases, Option-cases, inl, inr,
}
use cluster_api_provider_clo.Prelude.Dict.{Dict}
use cluster_api_provider_clo.CsiNode.Types.{
  Access, block_access, mount_access, NodeStageVolumeRequest, Host,
}
use cluster_api_provider_clo.CsiNode.Devices.{
  is_boot_disk, listed, resolve_all, is_blank, resolve_all, await_device, take_or,
  find_device_by_path, is_mounted, formatted_of, is_formatted, format_device,
}
use cluster_api_provider_clo.CsiNode.Volumes.{
  or_ext4, format_and_mount, stage_filesystem, stage_on, stage_with, node_stage_volume,
}

-- What `blkid` says of a device: no output, or the exit code 2, says that there is no file system.
abbrev pub Tells : Bool → Result (Option ℕ) String → Type 0
Tells held (ok output) = if is_blank output then held ≡ false else Unit
Tells held (err none) = Unit
Tells held (err (some code)) = if nat_eq code 2 then held ≡ false else Unit

-- A command that formats changes its own device only, and the other calls change none.
pub record IsLawful {W : Type 0} (host : Host W) (has_filesystem : String → W → Bool) : Type 0 where
  pub blkid_tells :
      (device : String) (w : W) → Tells (has_filesystem device w) (host.blkid device w).0
  pub blkid_keeps :
      (device other : String) (w : W)
      → has_filesystem other (host.blkid device w).1 ≡ has_filesystem other w
  pub format_keeps :
      (command flag device other : String) (w : W)
      → device ≢ other
      → has_filesystem other (host.run_command command (flag ∷ device ∷ []) w).1
        ≡ has_filesystem other w
  pub glob_keeps :
      (other : String) (w : W)
      → has_filesystem other (host.glob_devices w).1 ≡ has_filesystem other w
  pub list_keeps :
      (other : String) (w : W)
      → has_filesystem other (host.list_mounts w).1 ≡ has_filesystem other w
  pub mkdir_keeps :
      (path other : String) (w : W)
      → has_filesystem other (host.mkdir_all path w).1 ≡ has_filesystem other w
  pub mount_keeps :
      (source target fs_type : String) (options : List String) (other : String) (w : W)
      → has_filesystem other (host.mount source target fs_type options w).1 ≡ has_filesystem other w
  pub sleep_keeps :
      (other : String) (w : W) → has_filesystem other (host.sleep w) ≡ has_filesystem other w

module _ {W : Type 0} (host : Host W) (has_filesystem : String → W → Bool)
    (lawful : IsLawful host has_filesystem) (other : String) where
  await_device_keeps :
      (rounds : ℕ) (existing : Dict String) (w : W)
      → has_filesystem other (await_device host rounds existing w).1 ≡ has_filesystem other w
  unfolding await_device
  await_device_keeps zero existing w = refl
  await_device_keeps (suc rounds) existing w =
      let w' = (host.glob_devices w).1 in
      ground (
        arith,
        lawful.glob_keeps other w,
        lawful.sleep_keeps other w',
        await_device_keeps rounds existing w',
        await_device_keeps rounds existing (host.sleep w'),
      )

  find_device_keeps :
      (context : Dict String) (w : W)
      → has_filesystem other (find_device_by_path host context w).1 ≡ has_filesystem other w
  unfolding find_device_by_path take_or
  find_device_keeps context w =
      let globbed = host.glob_devices w in
      let mounts = host.list_mounts globbed.1 in
      ground (
        arith,
        lawful.glob_keeps other w,
        lawful.list_keeps other globbed.1,
        await_device_keeps 20 (resolve_all host (listed globbed.0) globbed.1) mounts.1,
      )

  is_mounted_keeps :
      (path : String) (w : W)
      → has_filesystem other (is_mounted host path w).1 ≡ has_filesystem other w
  unfolding is_mounted
  is_mounted_keeps path w = ground (arith, lawful.list_keeps other w)

  format_device_keeps :
      (device fs_type : String) (w : W)
      → device ≢ other
      → has_filesystem other (format_device host device fs_type w).1 ≡ has_filesystem other w
  unfolding format_device
  format_device_keeps device fs_type w apart = ground (
    arith,
    lawful.format_keeps "mkfs.ext4" "-F" device other w apart,
    lawful.format_keeps "mkfs.ext3" "-F" device other w apart,
    lawful.format_keeps "mkfs.xfs" "-f" device other w apart,
  )

  -- A device that `blkid` finds bare is not one with a file system.
  Tells-bare :
      (held : Bool) (answer : Result (Option ℕ) String)
      → Tells held answer
      → formatted_of host answer ≡ ok false
      → held ≡ false
  Tells-bare held (ok output) tells h = ground arith
  Tells-bare held (err none) tells h = ground arith
  Tells-bare held (err (some code)) tells h = ground arith

  apart_of_bare :
      (device : String) (w : W)
      → has_filesystem other w ≡ true
      → formatted_of host (host.blkid device w).0 ≡ ok false
      → device ≢ other
  apart_of_bare device w held bare e =
      let none_there =
        Tells-bare (has_filesystem device w) (host.blkid device w).0 (lawful.blkid_tells device w)
          bare in
      ground (arith, ap (λ d. has_filesystem d w) e, none_there, held)

  -- The other device is not one that may be formatted: it holds a file system, or is another.
  Spared : Bool → String → Type 0
  Spared before device = (before ≡ true) ⊎ (device ≢ other)

  apart_of_Spared :
      (device : String) (w : W) (before : Bool)
      → has_filesystem other w ≡ before
      → Spared before device
      → formatted_of host (host.blkid device w).0 ≡ ok false
      → device ≢ other
  unfolding Spared
  apart_of_Spared device w before was (inl held) bare = apart_of_bare device w (was ∙ held) bare
  apart_of_Spared device w before was (inr apart) bare = apart

  format_and_mount_keeps :
      (device path fs_type : String) (flags : List String) (w : W) (before : Bool)
      → has_filesystem other w ≡ before
      → Spared before device
      → has_filesystem other (format_and_mount host device path fs_type flags w).1 ≡ before
  unfolding format_and_mount is_formatted
  format_and_mount_keeps device path fs_type flags w before was spared =
      let called = host.blkid device w in
      let formatted = format_device host device fs_type called.1 in
      let kept = lawful.blkid_keeps device other w in
      elim (Result-cases (formatted_of host called.0)) [
        | inr (e, failed) ↦ ground (arith, failed, kept, was)
        | inl (true, done) ↦
            ground
              (arith, done, was, kept, lawful.mount_keeps device path fs_type flags other called.1)
        | inl (false, bare) ↦ ground (
          arith,
          bare,
          was,
          kept,
          format_device_keeps device fs_type called.1
              (apart_of_Spared device w before was spared bare),
          lawful.mount_keeps device path fs_type flags other formatted.1,
        )
      ]

  stage_filesystem_keeps :
      (device path fs_type : String) (flags : List String) (w : W) (before : Bool)
      → has_filesystem other w ≡ before
      → Spared before device
      → has_filesystem other (stage_filesystem host device path fs_type flags w).1 ≡ before
  unfolding stage_filesystem
  stage_filesystem_keeps device path fs_type flags w before was spared =
      let w' = (host.mkdir_all path w).1 in
      let mounted = is_mounted host path w' in
      let made : has_filesystem other w' ≡ before = lawful.mkdir_keeps path other w ∙ was in
      let looked : has_filesystem other mounted.1 ≡ before = is_mounted_keeps path w' ∙ made in
      ground (
        arith,
        made,
        looked,
        format_and_mount_keeps device path fs_type flags mounted.1 before looked spared,
      )

  stage_on_keeps :
      (path device : String) (access : Option Access) (w : W) (before : Bool)
      → has_filesystem other w ≡ before
      → Spared before device
      → has_filesystem other (stage_on host path access device w).1 ≡ before
  unfolding stage_on
  stage_on_keeps path device none w before was spared = was
  stage_on_keeps path device (some block_access) w before was spared = was
  stage_on_keeps path device (some (mount_access fs_type flags)) w before was spared =
      stage_filesystem_keeps device path (or_ext4 fs_type) flags w before was spared

  Spared-by_search :
      (context : Dict String) (w : W) (device : String) (before : Bool)
      → (before ≡ true) ⊎ (is_boot_disk other ≡ true)
      → (find_device_by_path host context w).0 ≡ ok device
      → Spared before device
  unfolding Spared
  Spared-by_search context w device before (inl held) found = inl held
  Spared-by_search context w device before (inr boot) found = inr (λ e.
      ground (arith, boot, ap is_boot_disk e, find_device_by_path_data host context w device found))

  stage_with_keeps :
      (req : NodeStageVolumeRequest) (access : Option Access) (w : W) (before : Bool)
      → has_filesystem other w ≡ before
      → (before ≡ true) ⊎ (is_boot_disk other ≡ true)
      → has_filesystem other (stage_with host req access w).1 ≡ before
  unfolding stage_with
  stage_with_keeps req access w before was spared =
      let found = find_device_by_path host req.publish_context w in
      let looked : has_filesystem other found.1 ≡ before =
        find_device_keeps req.publish_context w ∙ was in
      elim (Result-cases found.0) [
        | inr (e, failed) ↦ ground (arith, failed, looked)
        | inl (device, done) ↦ ground (
          arith,
          done,
          looked,
          stage_on_keeps req.staging_target_path device access found.1 before looked
              (Spared-by_search req.publish_context w device before spared done),
        )
      ]

  -- Over a host that keeps the laws of this module, `NodeStageVolume` leaves a device that has a
  -- file system, and a boot disk, as they were: the device has a file system after the call exactly
  -- if it had one before, whichever device the call finds, and whether it succeeds or not.
  pub node_stage_volume_keeps :
      (req : NodeStageVolumeRequest) (w : W)
      → (has_filesystem other w ≡ true) ⊎ (is_boot_disk other ≡ true)
      → has_filesystem other (node_stage_volume host req w).1 ≡ has_filesystem other w
  unfolding node_stage_volume
  node_stage_volume_keeps req w spared = elim (Option-cases req.volume_capability) [
    | inl absent ↦ ground (arith, absent)
    | inr (access, e) ↦
        ground (arith, e, stage_with_keeps req access w (has_filesystem other w) refl spared)
  ]
