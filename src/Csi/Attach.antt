-- ===== src/Csi/Attach.antt =====
-- The attachment calls of csi/driver/controller.go: ControllerPublishVolume and
-- ControllerUnpublishVolume. A handler runs as one step: the locks per server are left out.
pub mod Store
pub mod Attached
use cluster_api_provider_clo.Prelude.{
  ℕ, zero, suc, String, Bool, true, false, not, ◌&&◌, Option, none, some, List, [], ◌∷◌, ◌++◌, ◌==◌,
  contains_text, if◌then◌else◌, Action, Result, ok, err, ret, fail, map_err, attempt, guard, ◌>>=◌,
  ◌>>◌,
}
use cluster_api_provider_clo.CloudSdk.{
  ApiError, Drive, ServerDrive, Server, DrivesApi, ServersApi, SdkClient, drive_of_uuid,
}
use cluster_api_provider_clo.Csi.Types.{
  Code, invalid_argument, internal, not_found, Failure, status, PublishContext, Driver,
}
use cluster_api_provider_clo.Csi.Channel.{find_next_device_channel}
use cluster_api_provider_clo.Csi.Volume.{is_empty, const_status, require_client}

-- `sd.Drive != nil && sd.Drive.UUID == volumeID`
abbrev pub holds : String → ServerDrive → Bool
holds volume_id sd = elim sd.drive [ none ↦ false | some drive ↦ drive.uuid == volume_id ]

-- "Check if already attached": the channel of the first entry that holds the volume.
unfoldable pub attached_channel : String → List ServerDrive → Option String
attached_channel volume_id [] = none
attached_channel volume_id (sd ∷ sds) =
    if holds volume_id sd then some sd.dev_channel else attached_channel volume_id sds

-- The drives of a server without the volume.
unfoldable pub remaining : String → List ServerDrive → List ServerDrive
remaining volume_id [] = []
remaining volume_id (sd ∷ sds) =
    let rest = remaining volume_id sds in if holds volume_id sd then rest else sd ∷ rest

-- The first server on which the drive is mounted that is not the node.
unfoldable pub first_other : String → List String → Option String
first_other node_id [] = none
first_other node_id (mount ∷ mounts) =
    if mount == node_id then first_other node_id mounts else some mount

abbrev pub new_server_drive : String → String → ServerDrive
new_server_drive dev_channel volume_id = record {
  boot_order = 0;
  dev_channel = dev_channel;
  device = "virtio";
  drive = some (drive_of_uuid volume_id);
}

-- The drives of the node once the volume has been added.
abbrev pub with_volume : String → List ServerDrive → List ServerDrive
with_volume volume_id sds = sds ++ (new_server_drive (find_next_device_channel sds) volume_id ∷ [])

abbrev pub says_404 : ApiError → Bool
says_404 e = contains_text e.message "404"

abbrev pub publish_context : String → String → PublishContext
publish_context channel volume_id = record { channel = channel; volume_id = volume_id }

module _ {W : Type 0} (client : SdkClient W) where
  -- Takes the volume off the server `mount`. Only a server that cannot be read, and is not gone,
  -- is an error.
  detach_old : String → String → Action W Failure (Unit {0})
  unfolding remaining contains_text
  detach_old volume_id mount = do
    old ← attempt (client.servers.get mount)
    elim old [
      | err e ↦ if says_404 e then ret tt else fail (status internal)
      | ok server ↦ λ w. (
        ok tt,
        (client.servers.update mount (record server { drives = remaining volume_id server.drives })
            w).1,
      )
    ]

  -- The loop over `drive.MountedOn`, which ends after the first server that is not the node.
  release_others : String → String → Drive → Action W Failure (Unit {0})
  unfolding detach_old first_other
  release_others volume_id node_id drive =
      if drive.status == "mounted"
      then elim (first_other node_id drive.mounted_on) [
        | none ↦ ret tt
        | some mount ↦ detach_old volume_id mount
      ]
      else ret tt

  attach : String → String → Server → Action W Failure PublishContext
  unfolding find_next_device_channel
  attach volume_id node_id server = do
    map_err (const_status internal) (
        client.servers.update node_id
          (record server { drives = with_volume volume_id server.drives }))
    ret (publish_context (find_next_device_channel server.drives) volume_id)

  publish_new : String → String → Server → Action W Failure PublishContext
  unfolding release_others attach
  publish_new volume_id node_id server = do
    drive ← map_err (const_status not_found) (client.drives.get volume_id)
    release_others volume_id node_id drive
    attach volume_id node_id server

  -- `ControllerPublishVolume` with the server that was read.
  publish_on : String → String → Server → Action W Failure PublishContext
  unfolding attached_channel publish_new
  publish_on volume_id node_id server = elim (attached_channel volume_id server.drives) [
    | some channel ↦ ret (publish_context channel volume_id)
    | none ↦ publish_new volume_id node_id server
  ]

  -- "Verify detachment by polling the drive status", with the rounds left.
  await_detached : String → ℕ → W → W
  unfolding contains_text
  await_detached volume_id zero w = w
  await_detached volume_id (suc rounds) w =
      let (polled, w') = client.drives.get volume_id w in
      let rest = await_detached volume_id rounds w' in
      elim polled [
        | err e ↦ if says_404 e then w' else rest
        | ok drive ↦ if drive.status == "unmounted" && is_empty drive.mounted_on then w' else rest
      ]

  -- What follows a failed update: the server is read again, and the volume looked for.
  verify_detached : String → String → Action W Failure (Unit {0})
  unfolding attached_channel contains_text
  verify_detached volume_id node_id = do
    verified ← attempt (client.servers.get node_id)
    elim verified [
      | err e ↦ if says_404 e then ret tt else fail (status internal)
      | ok server ↦ elim (attached_channel volume_id server.drives) [
        | none ↦ ret tt
        | some channel ↦ fail (status internal)
      ]
    ]

  detach : String → String → Server → Action W Failure (Unit {0})
  unfolding remaining await_detached verify_detached
  detach volume_id node_id server = do
    updated ← attempt (
        client.servers.update node_id
          (record server { drives = remaining volume_id server.drives }))
    elim updated [
      | err e ↦ verify_detached volume_id node_id
      | ok answer ↦ λ w. (ok tt, await_detached volume_id 30 w)
    ]

  -- `ControllerUnpublishVolume` with the server that was read.
  unpublish_on : String → String → Server → Action W Failure (Unit {0})
  unfolding attached_channel detach
  unpublish_on volume_id node_id server = elim (attached_channel volume_id server.drives) [
    | none ↦ ret tt
    | some channel ↦ detach volume_id node_id server
  ]

module _ {W : Type 0} (d : Driver W) where
  -- `ControllerPublishVolume`
  unfoldable pub controller_publish_volume : String → String → Action W Failure PublishContext
  unfolding publish_on
  controller_publish_volume volume_id node_id = do
    guard (not (volume_id == "")) (status invalid_argument)
    guard (not (node_id == "")) (status invalid_argument)
    client ← require_client d
    server ← map_err (const_status not_found) (client.servers.get node_id)
    publish_on client volume_id node_id server

  -- `ControllerUnpublishVolume`
  unfoldable pub controller_unpublish_volume : String → String → Action W Failure (Unit {0})
  unfolding unpublish_on contains_text
  controller_unpublish_volume volume_id node_id = do
    guard (not (volume_id == "")) (status invalid_argument)
    guard (not (node_id == "")) (status invalid_argument)
    client ← require_client d
    found ← attempt (client.servers.get node_id)
    elim found [
      | err e ↦ if says_404 e then ret tt else fail (status internal)
      | ok server ↦ unpublish_on client volume_id node_id server
    ]

pub data WaitFailure : Type 0 where
  call_failed : ApiError → WaitFailure
  cancelled timed_out : WaitFailure

-- `waitForServerStatus`, with the rounds left; `is_done` is the state of the context.
unfoldable pub wait_for_server_status :
    {W : Type 0} → ServersApi W → (W → Bool) → String → String → ℕ → Action W WaitFailure (Unit {0})
wait_for_server_status api is_done server_id target zero w = (err timed_out, w)
wait_for_server_status api is_done server_id target (suc rounds) w =
    let (found, w') = api.get server_id w in
    let rest = wait_for_server_status api is_done server_id target rounds w' in
    elim found [
      | err e ↦ (err (call_failed e), w')
      | ok server ↦
          if server.status == target
          then (ok tt, w')
          else if is_done w'
          then (err cancelled, w')
          else rest
    ]
