-- ===== src/Cloud/Servers/Create.antt =====
-- pkg/cloud/servers.go: `CreateServer`, with its cleanup.
use cluster_api_provider_clo.Prelude.{
  ℕ, ◌+◌, String, ◌<>◌, List, [], ◌∷◌, ◌++◌, decimal, Action, Result, ok, err,
}
use cluster_api_provider_clo.CloudSdk.{Server}
use cluster_api_provider_clo.GoError.{Error, wrap}
use cluster_api_provider_clo.Cloud.Types.{Client, Timer, HttpApi}
use cluster_api_provider_clo.Cloud.Drives.{clone_drive, delete_drive}
use cluster_api_provider_clo.Cloud.Custom.{create_server_direct}
use cluster_api_provider_clo.Cloud.Servers.Build.{Disk, ServerSpec, build_server}

-- `fmt.Sprintf("%s-drive-%d", spec.Name, i)`
unfoldable pub drive_name : String → ℕ → String
unfolding decimal
drive_name name i = name <> ("-drive-" <> decimal i)

module _ {W : Type 0} (timer : Timer W) (http : HttpApi W) (c : Client W) where
  -- The cleanup; the errors of the deletions are ignored.
  unfoldable pub clean_up : List String → W → W
  unfolding delete_drive
  clean_up [] w = w
  clean_up (uuid ∷ uuids) w = clean_up uuids (delete_drive c uuid w).1

  -- "Clone drives first": the loop from disk `i` on, with the drives that were cloned.
  unfoldable pub clone_drives : String → ℕ → List Disk → List String → Action W Error (List String)
  unfolding clean_up drive_name
  clone_drives name i [] cloned w = (ok cloned, w)
  clone_drives name i (disk ∷ disks) cloned w =
      let (answer, w') = clone_drive timer c disk.uuid (drive_name name i) disk.size w in
      elim answer [
        | err e ↦ (err (wrap ("failed to clone drive " <> disk.uuid) e), clean_up cloned w')
        | ok drive ↦ clone_drives name (i + 1) disks (cloned ++ (drive.uuid ∷ [])) w'
      ]

  -- `CreateServer` behind the cloning.
  unfoldable pub create_with : ServerSpec → List String → Action W Error Server
  create_with spec cloned w =
      let (answer, w') = create_server_direct http c (build_server spec cloned) w in
      elim answer [
        | err e ↦ (err (wrap "failed to create server" e), clean_up cloned w')
        | ok server ↦ (ok server, w')
      ]

  abbrev pub after_cloning : ServerSpec → Result Error (List String) × W → Result Error Server × W
  after_cloning spec (err e, w) = (err e, w)
  after_cloning spec (ok cloned, w) = create_with spec cloned w

  -- `CreateServer`
  unfoldable pub create_server : ServerSpec → Action W Error Server
  create_server spec w = after_cloning spec (clone_drives spec.name 0 spec.disks [] w)
