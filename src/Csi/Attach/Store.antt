-- ===== src/Csi/Attach/Store.antt =====
-- What the server and drive calls are relied on for, as laws over the drive lists of the servers
-- that the service has accepted and shows. The hypervisor may let go of a drive later than that: the
-- laws say nothing of it.
use cluster_api_provider_clo.Prelude.{
  ◌≡◌, ◌⊎◌, ◌≢◌, String, Option, none, some, List, if◌then◌else◌, Result, ok, err,
}
use cluster_api_provider_clo.CloudSdk.{ApiError, Server, ServerDrive, SdkClient}
use cluster_api_provider_clo.Cloud.Drives.{has_status}

-- A server that is read shows the drives that it has; the status 404 says that there is none.
abbrev pub Reads : Option (List ServerDrive) → Result ApiError Server → Type 0
Reads held (ok server) = held ≡ some server.drives
Reads held (err e) = if has_status 404 e then held ≡ none else Unit

-- A PUT that succeeds sets the drives; one that fails has set them or not.
abbrev pub Puts :
    Option (List ServerDrive)
    → List ServerDrive
    → Option (List ServerDrive)
    → Result ApiError Server
    → Type 0
Puts before sent after (ok _) = after ≡ some sent
Puts before sent after (err _) = (after ≡ before) ⊎ (after ≡ some sent)

pub record IsLawful {W : Type 0} (client : SdkClient W)
    (drives_of : String → W → Option (List ServerDrive)) : Type 0 where
  pub get_reads : (id : String) (w : W) → Reads (drives_of id w) (client.servers.get id w).0
  pub get_keeps :
      (id other : String) (w : W) → drives_of other (client.servers.get id w).1 ≡ drives_of other w
  pub update_puts :
      (id : String) (server : Server) (w : W)
      → Puts
          (drives_of id w)
          server.drives
          (drives_of id (client.servers.update id server w).1)
          (client.servers.update id server w).0
  pub update_keeps :
      (id other : String) (server : Server) (w : W)
      → id ≢ other
      → drives_of other (client.servers.update id server w).1 ≡ drives_of other w
  pub drive_get_keeps :
      (id other : String) (w : W) → drives_of other (client.drives.get id w).1 ≡ drives_of other w
