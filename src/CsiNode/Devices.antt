-- ===== src/CsiNode/Devices.antt =====
-- csi/driver/node.go: the device of a volume is found, read, formatted and resized.
use cluster_api_provider_clo.Prelude.{
  ℕ, zero, suc, String, ◌<>◌, Bool, true, false, not, ◌&&◌, ◌||◌, Option, some, none, List, [], ◌∷◌,
  ltb, nat_eq, ◌==◌, contains, contains_text, if◌then◌else◌, Action, Result, ok, err, ret, fail,
  map_err, ◌>>=◌,
}
use cluster_api_provider_clo.Prelude.Dict.{Dict, lookup, insert}
use cluster_api_provider_clo.LoadBalancer.Nodes.{ends_with}
use cluster_api_provider_clo.CsiNode.Types.{MountPoint, Host}

-- White space, as far as Latin-1 has it.
abbrev is_space : String → Bool
is_space c = contains (" " ∷ "\n" ∷ "\t" ∷ "\r" ∷ "\u{b}" ∷ "\u{c}" ∷ "\u{85}" ∷ "\u{a0}" ∷ []) c

-- `len(strings.TrimSpace(s)) == 0`
unfoldable pub is_blank : String → Bool
is_blank String.[] = true
is_blank (String.◌∷◌ c s) = is_space (String.◌∷◌ c String.[]) && is_blank s

-- `strings.TrimSpace` at the end of a text, and of a text that starts with no space.
unfoldable pub trim_end : String → String
unfolding is_blank
trim_end String.[] = String.[]
trim_end (String.◌∷◌ c s) =
    let rest = trim_end s in if is_blank (String.◌∷◌ c s) then String.[] else String.◌∷◌ c rest

unfoldable pub trim_space : String → String
unfolding trim_end
trim_space String.[] = String.[]
trim_space (String.◌∷◌ c s) =
    let rest = trim_space s in
    if is_space (String.◌∷◌ c String.[]) then rest else trim_end (String.◌∷◌ c s)

abbrev pub is_boot_disk : String → Bool
is_boot_disk device = ends_with device "/vda"

unfoldable pub device_at : String → List MountPoint → Option String
device_at path [] = none
device_at path (mount ∷ mounts) =
    if mount.path == path then some mount.device else device_at path mounts

abbrev pub listed : {E A : Type 0} → Result E (List A) → List A
listed (ok xs) = xs
listed (err e) = []

module _ {W : Type 0} (host : Host W) where
  -- "Snapshot existing devices": the devices that their paths resolve to.
  unfoldable pub resolve_all : List String → W → Dict String
  unfolding insert
  resolve_all [] w = []
  resolve_all (entry ∷ entries) w =
      let rest = resolve_all entries w in
      if contains_text entry "-part" then rest else elim (host.eval_symlinks entry w) [
        | none ↦ rest
        | some resolved ↦ (entry, resolved) ∷ rest
      ]

  -- The devices in use, as they are named and as they resolve.
  unfoldable pub mounted_devices : List MountPoint → W → List String
  mounted_devices [] w = []
  mounted_devices (mount ∷ mounts) w = elim (host.eval_symlinks mount.device w) [
    | none ↦ mount.device ∷ mounted_devices mounts w
    | some resolved ↦ resolved ∷ mount.device ∷ mounted_devices mounts w
  ]

  -- "Find unmounted data disks"
  unfoldable pub candidates : List String → Dict String → Dict String
  unfolding ends_with contains
  candidates mounted [] = []
  candidates mounted ((path, resolved) ∷ devices) =
      let rest = candidates mounted devices in
      if is_boot_disk resolved || contains mounted resolved then rest else (path, resolved) ∷ rest

  -- The newest of the candidates, from the best so far and its time.
  unfoldable pub newest : Option String → ℕ → Dict String → W → Option String
  newest best time [] w = best
  newest best time ((path, resolved) ∷ devices) w = elim (host.mod_time path w) [
    | none ↦ newest best time devices w
    | some changed ↦
        if ltb time changed
        then newest (some resolved) changed devices w
        else newest best time devices w
  ]

  -- One candidate is taken, of several the newest.
  unfoldable pub choose : Dict String → W → Option String
  unfolding newest
  choose [] w = none
  choose ((path, resolved) ∷ []) w = some resolved
  choose (first ∷ second ∷ devices) w = newest none 0 (first ∷ second ∷ devices) w

  abbrev pub is_data_disk : String → W → Bool
  is_data_disk resolved w = host.is_device resolved w && not (is_boot_disk resolved)

  -- "Find NEW devices", with what they resolve to.
  unfoldable pub new_devices : Dict String → List String → W → List String
  unfolding lookup ends_with
  new_devices existing [] w = []
  new_devices existing (entry ∷ entries) w =
      let rest = new_devices existing entries w in
      if contains_text entry "-part" then rest else elim (lookup entry existing) [
        | some known ↦ rest
        | none ↦ elim (host.eval_symlinks entry w) [
          | none ↦ rest
          | some resolved ↦ if is_data_disk resolved w then resolved ∷ rest else rest
        ]
      ]

  abbrev pub sleep_unless_last : ℕ → W → W
  sleep_unless_last zero w = w
  sleep_unless_last (suc rounds) w = host.sleep w

  -- The attempts to find one new device; more than one is ambiguous.
  unfoldable pub await_device : ℕ → Dict String → Action W (Unit {0}) String
  unfolding new_devices
  await_device zero existing w = (err tt, w)
  await_device (suc rounds) existing w =
      let (globbed, w') = host.glob_devices w in
      elim globbed [
        | err e ↦ await_device rounds existing (host.sleep w')
        | ok entries ↦ elim (new_devices existing entries w') [
          | [] ↦ await_device rounds existing (sleep_unless_last rounds w')
          | first ∷ more ↦ (elim more [ [] ↦ ok first | second ∷ others ↦ err tt ], w')
        ]
      ]

  -- What `findDeviceByPath` answers, from its choice and from what it waits for without one.
  unfoldable pub take_or :
      W → Result (Unit {0}) String × W → Option String → Result (Unit {0}) String × W
  take_or w awaited none = awaited
  take_or w awaited (some device) = (ok device, w)

  -- `findDeviceByPath`
  unfoldable pub find_device_by_path : Dict String → Action W (Unit {0}) String
  unfolding lookup resolve_all mounted_devices candidates choose await_device take_or
  find_device_by_path publish_context w =
      let (globbed, w') = host.glob_devices w in
      let (mounts, w'') = host.list_mounts w' in
      let existing = resolve_all (listed globbed) w' in
      elim (lookup "channel" publish_context) [
        | none ↦ (err tt, w)
        | some channel ↦
            if channel == ""
            then (err tt, w)
            else take_or w'' (await_device 20 existing w'')
                (choose (candidates (mounted_devices (listed mounts) w'') existing) w'')
      ]

  -- `isMounted`
  unfoldable pub is_mounted : String → Action W String Bool
  unfolding device_at
  is_mounted path w =
      let (mounts, w') = host.list_mounts w in
      let listing : Result String Bool = elim mounts [
        | err e ↦ err e
        | ok points ↦ ok (elim (device_at path points) [ none ↦ false | some device ↦ true ])
      ] in
      if host.exists path w then (listing, w') else (ok false, w)

  -- `isFormatted`
  abbrev pub formatted_of : Result (Option ℕ) String → Result String Bool
  formatted_of (ok output) = ok (not (is_blank output))
  formatted_of (err none) = err "blkid failed"
  formatted_of (err (some code)) = if nat_eq code 2 then ok false else err "blkid failed"

  unfoldable pub is_formatted : String → Action W String Bool
  unfolding is_blank
  is_formatted device w = let (answer, w') = host.blkid device w in (formatted_of answer, w')

  -- `formatDevice`
  unfoldable pub format_device : String → String → Action W String (Unit {0})
  format_device device fs_type =
      if fs_type == "ext4"
      then host.run_command "mkfs.ext4" ("-F" ∷ device ∷ [])
      else if fs_type == "ext3"
      then host.run_command "mkfs.ext3" ("-F" ∷ device ∷ [])
      else if fs_type == "xfs"
      then host.run_command "mkfs.xfs" ("-f" ∷ device ∷ [])
      else fail ("unsupported filesystem type: " <> fs_type)

  -- `getDeviceFromMountPoint`
  unfoldable pub get_device_from_mount_point : String → Action W String String
  unfolding device_at
  get_device_from_mount_point path = host.list_mounts >>= (λ mounts. elim (device_at path mounts) [
    | none ↦ fail ("mount point " <> (path <> " not found"))
    | some device ↦ ret device
  ])

  -- `resizeFilesystem` behind the detection of the file system.
  abbrev resize_as : String → String → String → Action W String (Unit {0})
  resize_as device path fs_type =
      if fs_type == "ext4" || (fs_type == "ext3" || fs_type == "ext2")
      then host.run_command "resize2fs" (device ∷ [])
      else if fs_type == "xfs"
      then host.run_command "xfs_growfs" (path ∷ [])
      else fail ("unsupported filesystem for resize: " <> fs_type)

  -- `resizeFilesystem`
  unfoldable pub resize_filesystem : String → String → Action W String (Unit {0})
  unfolding trim_space
  resize_filesystem device path =
      map_err (λ e. "failed to detect filesystem") (host.blkid device)
      >>= (λ output. resize_as device path (trim_space output))
