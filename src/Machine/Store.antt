-- ===== src/Machine/Store.antt =====
-- What `reconcileNormal` relies on the service and the Kubernetes API for, as laws over the number
-- of servers that carry a machine's UID.
use cluster_api_provider_clo.Prelude.{
  ℕ, ◌+◌, ◌≡◌, ◌⊎◌, String, some, none, List, [], ◌∷◌, ◌==◌, if◌then◌else◌, Action, Result, ok, err,
}
use cluster_api_provider_clo.Prelude.Dict.{Dict, lookup}
use cluster_api_provider_clo.CloudSdk.{Server, Tag, Drive}
use cluster_api_provider_clo.Cloud.Types.{
  Client, Timer, HttpApi, HttpRequest, CustomServer, create_request,
}
use cluster_api_provider_clo.Machine.Types.{Machine, MachineApi}

-- 1 for metadata that carries the UID.
unfoldable pub carries : String → Dict String → ℕ
carries uid meta = elim (lookup "machine-uid" meta) [
  | none ↦ 0
  | some other ↦ if other == uid then 1 else 0
]

unfoldable pub count_own : String → List Server → ℕ
unfolding carries
count_own uid [] = 0
count_own uid (server ∷ servers) = carries uid server.meta + count_own uid servers

-- The call changes no count.
abbrev pub Still : {W A E : Type 0} → (String → W → ℕ) → Action W E A → Type 0
Still count call = (uid : String) (w : _) → count uid (call w).1 ≡ count uid w

-- The object in the answer to an update has the UID of the one that was sent.
abbrev pub SameUid : String → Result String Machine → Type 0
SameUid uid (ok stored) = stored.uid ≡ uid
SameUid uid (err e) = Unit

-- A request that creates a server may create it or not, whatever its answer is. Nothing is said of
-- what a listing answers with.
pub record IsCounting {W : Type 0} (kube : MachineApi W) (timer : Timer W) (http : HttpApi W)
    (c : Client W) (count : String → W → ℕ) : Type 0 where
  pub list_keeps : Still count c.sdk.servers.list
  pub get_keeps : (uuid : String) → Still count (c.sdk.servers.get uuid)
  pub start_keeps : (uuid : String) → Still count (c.sdk.servers.start uuid)
  pub ip_get_keeps : (uuid : String) → Still count (c.sdk.ips.get uuid)
  pub clone_keeps : (source : String) (body : Drive) → Still count (c.sdk.drives.clone source body)
  pub drive_get_keeps : (uuid : String) → Still count (c.sdk.drives.get uuid)
  pub drive_delete_keeps : (uuid : String) → Still count (c.sdk.drives.delete uuid)
  pub tick_keeps : (started n : ℕ) → Still count (timer.await_tick started n)
  pub tag_list_keeps : Still count c.sdk.tags.list
  pub tag_update_keeps : (uuid : String) (body : Tag) → Still count (c.sdk.tags.update uuid body)
  pub tag_create_keeps : (bodies : List Tag) → Still count (c.sdk.tags.create bodies)
  pub secret_keeps : (namespace name : String) → Still count (kube.get_secret namespace name)
  pub update_keeps : (m : Machine) → Still count (kube.update m)
  pub update_uid : (m : Machine) (w : W) → SameUid m.uid (kube.update m w).0
  pub update_status_keeps : (m : Machine) → Still count (kube.update_status m)
  pub update_status_uid : (m : Machine) (w : W) → SameUid m.uid (kube.update_status m w).0
  pub create_counts :
      (request : HttpRequest) (server : CustomServer) (uid : String) (w : W)
      → request.body ≡ create_request (server ∷ [])
      → (count uid (http.do_request request w).1 ≡ count uid w)
        ⊎ (count uid (http.do_request request w).1 ≡ carries uid server.meta + count uid w)
