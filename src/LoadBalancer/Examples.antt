-- ===== src/LoadBalancer/Examples.antt =====
-- Runs of the load balancer controller over the cluster in memory, and the theorems at concrete
-- data.
use mathlib.Core.Option
use cluster_api_provider_clo.Prelude.{
  ◌≡◌, refl, true, none, [], ◌∷◌, ◌==◌, contains, if◌then◌else◌, arith,
}
use cluster_api_provider_clo.Prelude.Dict.{lookup}
use cluster_api_provider_clo.LoadBalancer.Types.{Service, Node, Controller}
use cluster_api_provider_clo.LoadBalancer.Memory.{Cluster, environment}
use cluster_api_provider_clo.LoadBalancer.Reconcile.{assign, allocate_ip}
use cluster_api_provider_clo.LoadBalancer.Reconcile.Inv.{Inv, assign-Inv}
use cluster_api_provider_clo.LoadBalancer.Sync.{cleanup_deleted, sync_load_balancers}
use cluster_api_provider_clo.LoadBalancer.Sync.Inv.{sync_load_balancers-Inv}
use cluster_api_provider_clo.LoadBalancer.Sync.Cleanup.{cleanup_deleted-current}

abbrev web : Service
web = record {
  namespace = "default";
  name = "web";
  is_load_balancer = true;
  annotations = [];
  ports = 80 ∷ [];
  cluster_ip = "10.1.0.1";
  ingress = [];
}

abbrev mail : Service
mail = record web { name = "mail" }

abbrev first_node : Node
first_node = record {
  name = "n1";
  provider_id = "cloudsigma://s1";
  conditions = ("Ready", "True") ∷ [];
}

-- A healthy node whose provider ID is not set yet.
abbrev new_node : Node
new_node = record first_node { name = "n2"; provider_id = "" }

abbrev cluster : Cluster
cluster = record {
  services = web ∷ mail ∷ [];
  nodes = first_node ∷ [];
  ips = [];
  tags = [];
  pods = [];
  published = [];
}

abbrev fresh : Controller
fresh = record {
  cluster_name = "a";
  static_ips = "1.2.3.4" ∷ "1.2.3.5" ∷ [];
  dynamic_ips = [];
  ip_assignments = [];
  service_ips = [];
  manual_mode_nodes = ("s1", true) ∷ [];
}

fresh-Inv : Inv fresh
unfolding lookup
fresh-Inv = record {
  assigned = λ key ip h. ground arith;
  exclusive = λ key other ip h h'. ground arith;
  distinct = tt;
}

-- The controller when the service `default/old` has the first IP, on a node that is gone.
abbrev used : Controller
used = assign "1.2.3.4" "s0" "default/old" fresh

used-Inv : Inv used
unfolding lookup
used-Inv = assign-Inv "1.2.3.4" "s0" "default/old" fresh fresh-Inv refl

allocate_ip_run : (allocate_ip environment used web cluster).0 ≡ "1.2.3.5"
unfolding allocate_ip assign ◌==◌
allocate_ip_run = refl

sync_run :
    ((sync_load_balancers environment (used, cluster)).1.1.published
      ≡ ("mail", "1.2.3.5") ∷ ("web", "1.2.3.4") ∷ [])
    × ((sync_load_balancers environment (used, cluster)).1.0.ip_assignments
        ≡ ("1.2.3.4", "s1") ∷ ("1.2.3.5", "s1") ∷ [])
unfolding sync_load_balancers assign ◌==◌
sync_run = (refl, refl)

sync_load_balancers-Inv_example : Inv (sync_load_balancers environment (used, cluster)).1.0
sync_load_balancers-Inv_example = sync_load_balancers-Inv environment (used, cluster) used-Inv

-- With a healthy node alone that has no UUID, both services are given the same IP.
same_ip_run :
    (sync_load_balancers environment
      (fresh, record cluster { nodes = new_node ∷ [] })).1.1.published
    ≡ ("mail", "1.2.3.4") ∷ ("web", "1.2.3.4") ∷ []
unfolding sync_load_balancers ◌==◌
same_ip_run = refl

cleanup_deleted-current_example :
    lookup "default/old"
      (cleanup_deleted environment
        ("default/web" ∷ [])
        used.service_ips
        (used, cluster)).0.service_ips
    ≡ (if contains ("default/web" ∷ []) "default/old"
        then lookup "default/old" used.service_ips
        else none)
cleanup_deleted-current_example =
    cleanup_deleted-current environment ("default/web" ∷ []) "default/old" used cluster
