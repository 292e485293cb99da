-- ===== src/LoadBalancer/Sync.antt =====
-- discoverOwnedIPs, recoverServiceState, syncLoadBalancers, checkIPFailover and cleanupAllIPTags.
pub mod Inv
pub mod Cleanup
pub mod Failover
use cluster_api_provider_clo.Prelude.{
  outside, ℕ, String, ◌<>◌, Bool, true, false, not, ◌&&◌, ◌||◌, Option, none, some, List, [], ◌∷◌,
  ◌==◌, split_once, contains, if◌then◌else◌, Action, Result, ok, err, ret, fail, map_err, attempt,
  ◌>>=◌, ◌>>◌,
}
use cluster_api_provider_clo.Prelude.Dict.{Dict, lookup, insert, delete}
use cluster_api_provider_clo.LoadBalancer.Types.{Service, Node, Environment, Controller}
use cluster_api_provider_clo.LoadBalancer.Pool.{
  is_pool_ip, service_key, get_healthy_nodes, get_node_uuid, pod_name, add_discovered,
}
use cluster_api_provider_clo.LoadBalancer.IpTags.{untag_ip_in_cloud_sigma}
use cluster_api_provider_clo.LoadBalancer.Nodes.{
  ensure_node_manual_mode, endpoint_or_cluster_ip, configure_ip_on_node, delete_ip_config_pod,
}
use cluster_api_provider_clo.LoadBalancer.Reconcile.{first_uuid, reconcile_service}

-- The keys of the services of type LoadBalancer.
unfoldable pub current_services : List Service → List String
current_services [] = []
current_services (svc ∷ svcs) =
    let rest = current_services svcs in
    if svc.is_load_balancer then service_key svc ∷ rest else rest

-- The UUIDs of the healthy nodes.
unfoldable pub healthy_uuids : List Node → List String
unfolding get_node_uuid
healthy_uuids [] = []
healthy_uuids (node ∷ nodes) =
    let rest = healthy_uuids nodes in
    let uuid = get_node_uuid node in if uuid == "" then rest else uuid ∷ rest

-- The first service with the IP.
unfoldable pub service_with_ip : String → Dict String → Option String
service_with_ip ip [] = none
service_with_ip ip ((key, other) ∷ service_ips) =
    if other == ip then some key else service_with_ip ip service_ips

-- `strings.SplitN(key, "/", 2)` where it gives two parts.
pub split_key : String → Option (String × String)
unfolding split_once
split_key key = split_once "/" key

-- `delete(c.serviceIPs, key); delete(c.ipAssignments, ip)`
unfoldable pub release : String → String → Controller → Controller
unfolding delete
release key ip c = record c {
  service_ips = delete key c.service_ips;
  ip_assignments = delete ip c.ip_assignments;
}

-- `c.ipAssignments[ip] = uuid`
abbrev move_ip : String → String → Controller → Controller
move_ip ip uuid c = record c { ip_assignments = insert ip uuid c.ip_assignments }

-- The loop of `recoverServiceState` over the IPs of a service.
unfoldable pub recover_ingress : String → List String → Controller → Controller
unfolding is_pool_ip insert
recover_ingress key [] c = c
recover_ingress key (ip ∷ ips) c =
    recover_ingress key ips
      (if is_pool_ip c ip then record c { service_ips = insert key ip c.service_ips } else c)

unfoldable pub recover_services : List Service → Controller → Controller
unfolding recover_ingress
recover_services [] c = c
recover_services (svc ∷ svcs) c =
    recover_services svcs
      (if svc.is_load_balancer then recover_ingress (service_key svc) svc.ingress c else c)

-- `ipsToClean`: the services by IP.
ips_to_clean : Dict String → Dict String → Dict String
unfolding insert
ips_to_clean [] ips = ips
ips_to_clean ((key, ip) ∷ service_ips) ips = ips_to_clean service_ips (insert ip key ips)

module _ {W : Type 0} (env : Environment W) where
  -- `discoverOwnedIPs`
  unfoldable pub discover_owned_ips : Action (Controller × W) String (Unit {0})
  unfolding add_discovered
  discover_owned_ips = do
    token ← outside env.get_token
    answer ← outside (env.http.get_ips token)
    elim answer [
      | none ↦ fail "failed to parse IPs"
      | some ips ↦ λ (c, w).
          (ok tt, (add_discovered ips (record c { static_ips = []; dynamic_ips = [] }), w))
    ]

  -- `recoverServiceState`
  unfoldable pub recover_service_state : Action (Controller × W) String (Unit {0})
  unfolding recover_services
  recover_service_state = do
    svcs ← outside env.kube.list_services
    λ (c, w). (ok tt, (recover_services svcs c, w))

  -- The loop "Cleanup deleted services", over the map as it was at its start.
  pub cleanup_deleted : List String → Dict String → Controller × W → Controller × W
  unfolding contains untag_ip_in_cloud_sigma delete_ip_config_pod release
  cleanup_deleted current [] s = s
  cleanup_deleted current ((key, ip) ∷ service_ips) (c, w) = cleanup_deleted current service_ips (
      if contains current key
      then (c, w)
      else (release key ip c, delete_ip_config_pod env ip (untag_ip_in_cloud_sigma env ip w).1))

  -- The loop over the services; an error is logged.
  reconcile_all : List Service → List Node → Controller × W → Controller × W
  unfolding reconcile_service
  reconcile_all [] healthy s = s
  reconcile_all (svc ∷ svcs) healthy s =
      reconcile_all svcs healthy
        (if svc.is_load_balancer then (reconcile_service env svc healthy s).1 else s)

  -- "Find service for this IP and configure lb-ip pod on new node"
  configure_service : Option String → String → String → W → W
  unfolding split_key endpoint_or_cluster_ip configure_ip_on_node
  configure_service none ip uuid w = w
  configure_service (some key) ip uuid w = elim (split_key key) [
    | none ↦ w
    | some (namespace, name) ↦
        let (found, w') = env.kube.get_service namespace name w in
        elim found [
          | err e ↦ w'
          | ok svc ↦ elim svc.ports [
            | [] ↦ w'
            | port ∷ ports ↦
                let (target, w'') = endpoint_or_cluster_ip env svc w' in
                (configure_ip_on_node env ip uuid target port w'').1
          ]
        ]
  ]

  -- One round of `checkIPFailover`: the IP goes to the first healthy node.
  fail_over : String → String → Controller × W → Controller × W
  unfolding ensure_node_manual_mode insert configure_service service_with_ip pod_name
  fail_over ip uuid s =
      if uuid == ""
      then s
      else let (manual, (c, w)) = ensure_node_manual_mode env uuid s in
        elim manual [
          | err e ↦ (c, w)
          | ok _ ↦
              let w' = (env.kube.delete_pod (pod_name ip) w).1 in
              (move_ip ip uuid c, configure_service (service_with_ip ip c.service_ips) ip uuid w')
        ]

  fail_over_all : List Node → Dict String → Controller × W → Controller × W
  unfolding fail_over healthy_uuids first_uuid contains
  fail_over_all healthy [] s = s
  fail_over_all healthy ((ip, current) ∷ assignments) s =
      fail_over_all healthy assignments (
        if contains (healthy_uuids healthy) current then s else fail_over ip (first_uuid healthy) s)

  -- `checkIPFailover`
  unfoldable pub check_ip_failover : List Node → Controller × W → Controller × W
  unfolding fail_over_all
  check_ip_failover [] s = s
  check_ip_failover (node ∷ nodes) (c, w) = fail_over_all (node ∷ nodes) c.ip_assignments (c, w)

  -- `syncLoadBalancers` with the services and the healthy nodes.
  sync_all : List Service → List Node → Controller × W → Controller × W
  unfolding current_services cleanup_deleted reconcile_all check_ip_failover
  sync_all svcs [] s = s
  sync_all svcs (node ∷ nodes) (c, w) =
      let healthy = node ∷ nodes in
      check_ip_failover healthy
        (reconcile_all svcs healthy (cleanup_deleted (current_services svcs) c.service_ips (c, w)))

  -- `syncLoadBalancers`
  unfoldable pub sync_load_balancers : Action (Controller × W) String (Unit {0})
  unfolding get_healthy_nodes sync_all
  sync_load_balancers = do
    svcs ← outside env.kube.list_services
    nodes ← outside env.kube.list_nodes
    λ s. (ok tt, sync_all svcs (get_healthy_nodes nodes) s)

  untag_ips : Dict String → W → W
  unfolding untag_ip_in_cloud_sigma
  untag_ips [] w = w
  untag_ips ((ip, key) ∷ ips) w = untag_ips ips (untag_ip_in_cloud_sigma env ip w).1

  -- `cleanupAllIPTags`
  unfoldable pub cleanup_all_ip_tags : Controller → W → W
  unfolding untag_ips ips_to_clean
  cleanup_all_ip_tags c w = untag_ips (ips_to_clean c.service_ips []) w

  -- The part of `Start` that comes before the loop, for a controller that is not disabled.
  unfoldable pub start : Controller → W → Controller × W
  unfolding discover_owned_ips recover_service_state sync_load_balancers
  start c w =
      let fresh : Controller = record c {
        ip_assignments = [];
        service_ips = [];
        manual_mode_nodes = [];
      } in
      let discovered = (discover_owned_ips (fresh, w)).1 in
      let recovered = (recover_service_state discovered).1 in (sync_load_balancers recovered).1
