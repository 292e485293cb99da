-- ===== src/Cluster.antt =====
-- controllers/cloudsigmacluster_controller.go: a CloudSigmaCluster is made ready and let go.
pub mod Ready
mod Examples
use cluster_api_provider_clo.Prelude.{
  ℕ, String, Bool, true, false, Option, some, none, List, [], ◌∷◌, ◌++◌, contains, ◌==◌,
  if◌then◌else◌, Action, Result, ok, err, ret, fail, map_err, attempt, outside, ◌>>=◌, ◌>>◌,
}
use cluster_api_provider_clo.CloudSdk.{SdkClient, Vlan}
use cluster_api_provider_clo.GoError.{Error, plain, wrap}
use cluster_api_provider_clo.NodeSync.{KubeError, conflict, not_found, other_error}
use cluster_api_provider_clo.Auth.Types.{ImpersonationClient, OauthApi}
use cluster_api_provider_clo.Cloud.Types.{Client}
use cluster_api_provider_clo.Cloud.Connect.{Credentials}
use cluster_api_provider_clo.Cloud.Network.{get_vlan}
use cluster_api_provider_clo.Machine.Types.{MachineApi, MachineCluster, ReconcilerConfig}
use cluster_api_provider_clo.Machine.Steps.{remove_finalizer}
use cluster_api_provider_clo.Machine.Reconcile.{client_for}

-- `CloudSigmaCluster`, as far as this controller uses it: `vlan` is the UUID of `Spec.VLAN`, and
-- `vlan_uuid` that of `Status.Network`.
pub record Cluster : Type 0 where
  pub finalizers : List String
  pub is_deleting : Bool
  pub region : String
  pub user_email : String
  pub vlan : Option String
  pub vlan_uuid : Option String
  pub ready : Bool
  pub network_ready : Bool

-- The object that an update is answered with takes the place of the one in hand; `get_owner` tells
-- whether the cluster or its owner is paused.
pub record ClusterApi (W : Type 0) : Type 0 where
  pub get : Action W KubeError Cluster
  pub get_owner : Cluster → Action W String (Option Bool)
  pub update : Cluster → Action W String Cluster
  pub update_status : Cluster → Action W String Cluster

abbrev pub cluster_finalizer : String
cluster_finalizer = "cloudsigmacluster.infrastructure.cluster.x-k8s.io"

abbrev pub as_ready : Cluster → Cluster
as_ready cluster = record cluster { ready = true; network_ready = true }

-- `region := r.CloudSigmaRegion` and what the spec makes of it.
abbrev region_of_cluster : ReconcilerConfig → Cluster → String
region_of_cluster config cluster =
    if cluster.region == "" then config.cloud_sigma_region else cluster.region

abbrev pub keep_cluster :
    {W : Type 0} → Cluster → Result String Cluster × W → Result Error (Unit {0}) × (Cluster × W)
keep_cluster cluster (ok stored, w) = (ok tt, (stored, w))
keep_cluster cluster (err e, w) = (err (plain e), (cluster, w))

module _ {W : Type 0} (api : ClusterApi W) where
  -- "Add finalizer if not present"
  unfoldable pub ensure_finalizer : Action (Cluster × W) Error (Unit {0})
  unfolding contains
  ensure_finalizer (cluster, w) =
      let finalized : Cluster = record cluster {
        finalizers = cluster.finalizers ++ (cluster_finalizer ∷ []);
      } in
      if contains cluster.finalizers cluster_finalizer
      then (ok tt, (cluster, w))
      else map_err (wrap "failed to add finalizer")
          (λ s. keep_cluster finalized (api.update finalized s.1)) (cluster, w)

  -- `reconcileDelete`
  unfoldable pub reconcile_delete : Action (Cluster × W) Error (Unit {0})
  unfolding remove_finalizer
  reconcile_delete (cluster, w) =
      let released : Cluster = record cluster {
        finalizers = remove_finalizer cluster_finalizer cluster.finalizers;
      } in
      map_err (wrap "failed to remove finalizer")
        (λ s. keep_cluster released (api.update released s.1)) (cluster, w)

  module _ (c : Client W) where
    -- The judgement of the VLAN that was asked for.
    abbrev pub use_vlan : Result Error (Option Vlan) → Action (Cluster × W) Error (Unit {0})
    use_vlan (err e) s = (err (wrap "failed to get VLAN" e), s)
    use_vlan (ok none) s = (err (plain "specified VLAN does not exist"), s)
    use_vlan (ok (some vlan)) (cluster, w) =
        (ok tt, (record cluster { vlan_uuid = some vlan.uuid }, w))

    -- `reconcileVLAN` for the UUID of the spec.
    unfoldable pub reconcile_vlan : String → Action (Cluster × W) Error (Unit {0})
    reconcile_vlan uuid (cluster, w) =
        let (found, w') = get_vlan c uuid w in
        if uuid == "" then (ok tt, (cluster, w)) else use_vlan found (cluster, w')

    -- "Reconcile VLAN if specified"
    unfoldable pub reconcile_network : Action (Cluster × W) Error (Unit {0})
    unfolding reconcile_vlan
    reconcile_network (cluster, w) = elim cluster.vlan [
      | none ↦ (ok tt, (cluster, w))
      | some uuid ↦ map_err (wrap "failed to reconcile VLAN") (reconcile_vlan uuid) (cluster, w)
    ]

    -- "Mark cluster as ready"
    unfoldable pub mark_ready : Action (Cluster × W) Error (Unit {0})
    mark_ready =
        map_err (wrap "failed to update status")
          (λ s. keep_cluster (as_ready s.0) (api.update_status (as_ready s.0) s.1))

    -- `reconcileNormal`
    unfoldable pub reconcile_normal : Action (Cluster × W) Error (Unit {0})
    unfolding ensure_finalizer reconcile_network mark_ready
    reconcile_normal = do ensure_finalizer; reconcile_network; mark_ready

  module _ (kube : MachineApi W) (new_sdk : Credentials → String → SdkClient W) (oauth : OauthApi W)
      (config : ReconcilerConfig) where
    -- `getCloudClient`, less the texts of its errors, which only the log has.
    unfoldable pub get_cloud_client :
        Cluster → Action (Option ImpersonationClient × W) Error (Client W)
    unfolding client_for
    get_cloud_client cluster =
        client_for kube new_sdk oauth config cluster.user_email (region_of_cluster config cluster)

    unfoldable pub reconcile_with : Client W → Cluster → Action W Error (Unit {0})
    unfolding reconcile_delete reconcile_normal
    reconcile_with c cluster w =
        let (deleted, (_, gone)) = reconcile_delete (cluster, w) in
        let (answer, (_, w')) = reconcile_normal c (cluster, w) in
        if cluster.is_deleting then (deleted, gone) else (answer, w')

    -- `Reconcile`: the answer is `RequeueAfter` in seconds.
    unfoldable pub reconcile_in : Cluster → Action (Option ImpersonationClient × W) Error ℕ
    unfolding reconcile_with get_cloud_client
    reconcile_in cluster s =
        let (connected, s') = get_cloud_client cluster s in
        elim connected [
          | err _ ↦ (ok 30, s')
          | ok c ↦ (outside (reconcile_with c cluster) >> ret 0) s'
        ]

    unfoldable pub reconcile : Action (Option ImpersonationClient × W) Error ℕ
    unfolding reconcile_in
    reconcile = do
      read ← attempt (outside api.get)
      elim read [
        | err e ↦ elim e [
          | not_found ↦ ret 0
          | conflict ↦ fail (plain "failed to get cluster")
          | other_error ↦ fail (plain "failed to get cluster")
        ]
        | ok cluster ↦ map_err (λ e. plain e) (outside (api.get_owner cluster)) >>= (λ owner.
            elim owner [
              | none ↦ ret 0
              | some paused ↦ if paused then ret 0 else reconcile_in cluster
            ])
      ]
