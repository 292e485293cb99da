-- ===== src/Cluster/Examples.antt =====
-- A run of the cluster controller in memory, and its theorem at concrete data.
use cluster_api_provider_clo.Prelude.{◌≡◌, refl, false, none, some, [], ◌==◌, contains, ok}
use cluster_api_provider_clo.CloudSdk.{SdkClient}
use cluster_api_provider_clo.Cloud.Types.{Client}
use cluster_api_provider_clo.Cloud.Network.{get_vlan}
use cluster_api_provider_clo.Cloud.Memory.{refusing, client_of}
use cluster_api_provider_clo.Cluster.{
  Cluster, ClusterApi, ensure_finalizer, reconcile_vlan, reconcile_network, mark_ready,
  reconcile_normal,
}
use cluster_api_provider_clo.Cluster.Ready.{IsReady, reconcile_normal-IsReady}

abbrev cluster : Cluster
cluster = record {
  finalizers = [];
  is_deleting = false;
  region = "zrh";
  user_email = "a@b";
  vlan = some "v1";
  vlan_uuid = none;
  ready = false;
  network_ready = false;
}

abbrev api : ClusterApi (Unit {0})
api = record {
  get = λ w. (ok cluster, w);
  get_owner = λ cluster w. (ok (some false), w);
  update = λ sent w. (ok sent, w);
  update_status = λ sent w. (ok sent, w);
}

abbrev client : Client (Unit {0})
client =
    let unused : SdkClient (Unit {0}) = refusing in
    client_of (record unused {
      vlans = record unused.vlans { get = λ uuid w. (ok (record { uuid = uuid }), w) };
    })

is_ready : (reconcile_normal api client (cluster, tt)).0 ≡ ok tt
unfolding reconcile_normal ensure_finalizer reconcile_network reconcile_vlan mark_ready get_vlan
    contains ◌==◌
is_ready = refl

reconcile_normal-IsReady_example :
    (sent : Cluster) × (when : Unit {0}) × (answer : Cluster) × IsReady api client sent
    × ((api.update_status sent when).0 ≡ ok answer)
    × ((reconcile_normal api client (cluster, tt)).1.0 ≡ answer)
reconcile_normal-IsReady_example =
    reconcile_normal-IsReady api client (λ m w. refl) cluster tt is_ready
