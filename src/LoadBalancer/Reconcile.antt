-- ===== src/LoadBalancer/Reconcile.antt =====
-- allocateIP and reconcileService.
pub mod Allocation
pub mod Inv
pub mod Recorded
use cluster_api_provider_clo.Prelude.{
  outside, ℕ, String, ◌<>◌, Bool, true, false, not, ◌&&◌, ◌||◌, Option, none, some, List, [], ◌∷◌,
  ◌==◌, if◌then◌else◌, Action, Result, ok, err, ret, fail, map_err, attempt, ◌>>=◌, ◌>>◌,
}
use cluster_api_provider_clo.Prelude.Dict.{Dict, lookup, insert}
use cluster_api_provider_clo.LoadBalancer.Types.{Service, Node, Environment, Controller}
use cluster_api_provider_clo.LoadBalancer.Pool.{
  is_pool_ip, service_key, get_ip_pool_type, pool_of, get_node_uuid,
}
use cluster_api_provider_clo.LoadBalancer.IpTags.{is_ip_available, tag_ip_in_cloud_sigma}
use cluster_api_provider_clo.LoadBalancer.Nodes.{
  ensure_node_manual_mode, endpoint_or_cluster_ip, configure_ip_on_node, ensure_ip_configured,
  update_service_status,
}

abbrev is_assigned : Dict String → String → Bool
is_assigned assignments ip = elim (lookup ip assignments) [ none ↦ false | some uuid ↦ true ]

-- `c.ipAssignments[ip] = uuid; c.serviceIPs[key] = ip`
unfoldable pub assign : String → String → String → Controller → Controller
unfolding insert
assign ip uuid key c = record c {
  ip_assignments = insert ip uuid c.ip_assignments;
  service_ips = insert key ip c.service_ips;
}

-- The first IP of the status that is in a pool.
unfoldable pub first_pool_ip : Controller → List String → Option String
unfolding is_pool_ip
first_pool_ip c [] = none
first_pool_ip c (ip ∷ ips) = if is_pool_ip c ip then some ip else first_pool_ip c ips

-- The UUID of the first node, and the empty text if there is no node.
unfoldable pub first_uuid : List Node → String
unfolding get_node_uuid
first_uuid [] = ""
first_uuid (node ∷ nodes) = get_node_uuid node

module _ {W : Type 0} (env : Environment W) where
  -- The loop of `allocateIP`. An IP whose tags cannot be read is passed over.
  allocate_loop : Dict String → List String → W → String × W
  unfolding is_ip_available lookup
  allocate_loop assignments [] w = ("", w)
  allocate_loop assignments (ip ∷ ips) w =
      let (available, w') = is_ip_available env ip w in
      let skip = allocate_loop assignments ips w in
      let rest = allocate_loop assignments ips w' in
      if is_assigned assignments ip
      then skip
      else elim available [ err e ↦ rest | ok free ↦ if free then (ip, w') else rest ]

  -- `allocateIP`
  unfoldable pub allocate_ip : Controller → Service → W → String × W
  unfolding allocate_loop get_ip_pool_type
  allocate_ip c svc w = allocate_loop c.ip_assignments (pool_of c (get_ip_pool_type svc)) w

  -- "Configure the IP on the node" for the first port of the service, where it has one.
  configure_first : String → String → Service → W → W
  unfolding endpoint_or_cluster_ip configure_ip_on_node
  configure_first ip uuid svc w = elim svc.ports [
    | [] ↦ w
    | port ∷ ports ↦
        let (target, w') = endpoint_or_cluster_ip env svc w in
        (configure_ip_on_node env ip uuid target port w').1
  ]

  -- The same for a service that has its IP, with the check for the pod and the tags.
  refresh_first : Controller → String → String → Service → W → W
  unfolding endpoint_or_cluster_ip ensure_ip_configured tag_ip_in_cloud_sigma
  refresh_first c ip uuid svc w = elim svc.ports [
    | [] ↦ w
    | port ∷ ports ↦
        let (target, w') = endpoint_or_cluster_ip env svc w in
        let w'' = ensure_ip_configured env ip uuid target port w' in
        (tag_ip_in_cloud_sigma env c.cluster_name ip (service_key svc) w'').1
  ]

  -- The service already has a pool IP.
  reconcile_existing : Service → List Node → String → Controller × W → Controller × W
  unfolding lookup assign first_uuid refresh_first
  reconcile_existing svc healthy ip (c, w) = elim (lookup ip c.ip_assignments) [
    | some uuid ↦ (c, refresh_first c ip uuid svc w)
    | none ↦
        let uuid = first_uuid healthy in
        if uuid == ""
        then (c, w)
        else (assign ip uuid (service_key svc) c, refresh_first c ip uuid svc w)
  ]

  -- "Assign IP to a healthy node"
  assign_to_node : Service → List Node → String → Action (Controller × W) String (Unit {0})
  unfolding first_uuid ensure_node_manual_mode assign tag_ip_in_cloud_sigma configure_first
  assign_to_node svc healthy ip s =
      let uuid = first_uuid healthy in
      if uuid == ""
      then (ok tt, s)
      else let (manual, (c, w)) = ensure_node_manual_mode env uuid s in
        elim manual [
          | err e ↦ (err e, (c, w))
          | ok _ ↦
              let w' = (tag_ip_in_cloud_sigma env c.cluster_name ip (service_key svc) w).1 in
              (ok tt, (assign ip uuid (service_key svc) c, configure_first ip uuid svc w'))
        ]

  -- The service has no IP yet.
  reconcile_new : Service → List Node → Action (Controller × W) String (Unit {0})
  unfolding allocate_ip assign_to_node update_service_status
  reconcile_new svc healthy (c, w) =
      let (ip, w') = allocate_ip c svc w in
      if ip == ""
      then (ok tt, (c, w'))
      else (assign_to_node svc healthy ip >> outside (update_service_status env svc ip)) (c, w')

  -- `reconcileService`
  unfoldable pub reconcile_service : Service → List Node → Action (Controller × W) String (Unit {0})
  unfolding first_pool_ip reconcile_existing lookup update_service_status reconcile_new
  reconcile_service svc healthy (c, w) = elim (first_pool_ip c svc.ingress) [
    | some ip ↦ (ok tt, reconcile_existing svc healthy ip (c, w))
    | none ↦ elim (lookup (service_key svc) c.service_ips) [
      | some ip ↦ outside (update_service_status env svc ip) (c, w)
      | none ↦ reconcile_new svc healthy (c, w)
    ]
  ]
