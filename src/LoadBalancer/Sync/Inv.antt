-- ===== src/LoadBalancer/Sync/Inv.antt =====
-- What the rest of a sync does to the maps of the controller: the cleanup of deleted services, the
-- reconciliation of all services and the failover.
use cluster_api_provider_clo.Prelude.{
  ◌≡◌, subst, String, some, List, [], ◌∷◌, ◌==◌, ==_iff, contains, arith, Result-cases, Bool-cases,
  if-elim, inl, inr,
}
use cluster_api_provider_clo.Prelude.Dict.{
  Dict, lookup, lookup-insert, lookup-delete, NodupKeys, delete-NodupKeys, Found, Found-self,
  Found-delete,
}
use cluster_api_provider_clo.LoadBalancer.Types.{Service, Node, Environment, Controller}
use cluster_api_provider_clo.LoadBalancer.Pool.{get_healthy_nodes}
use cluster_api_provider_clo.LoadBalancer.Nodes.{ensure_node_manual_mode}
use cluster_api_provider_clo.LoadBalancer.Reconcile.{first_uuid}
use cluster_api_provider_clo.LoadBalancer.Reconcile.Inv.{
  Inv, ensure_node_manual_mode-Inv, reconcile_service-Inv,
}
use cluster_api_provider_clo.LoadBalancer.Sync.{
  release, move_ip, cleanup_deleted, reconcile_all, fail_over, fail_over_all, check_ip_failover,
  healthy_uuids, sync_all, sync_load_balancers,
}

-- Releasing the IP of a service keeps the invariant: no other service has that IP.
pub release-Inv :
    (key ip : String) (c : Controller)
    → Inv c
    → lookup key c.service_ips ≡ some ip
    → Inv (release key ip c)
unfolding release
release-Inv key ip c v h = record {
  assigned = λ k i h'. ground (
    arith,
    lookup-delete key k c.service_ips,
    lookup-delete ip i c.ip_assignments,
    v.assigned k i,
    v.exclusive key k ip h,
    ==_iff ip i,
    ==_iff key k,
  );
  exclusive = λ k j i h' h''. ground (
    arith,
    lookup-delete key k c.service_ips,
    lookup-delete key j c.service_ips,
    v.exclusive k j i,
  );
  distinct = delete-NodupKeys key c.service_ips v.distinct;
}

-- Moving an IP to another node keeps the invariant.
move_ip-Inv : (ip uuid : String) (c : Controller) → Inv c → Inv (move_ip ip uuid c)
move_ip-Inv ip uuid c v = record {
  assigned = λ k i h. ground (arith, lookup-insert ip i uuid c.ip_assignments, v.assigned k i, h);
  exclusive = v.exclusive;
  distinct = v.distinct;
}

module _ {W : Type 0} (env : Environment W) where
  cleanup_deleted-Inv :
      (current : List String) (service_ips : Dict String) (s : Controller × W)
      → Inv s.0
      → Found s.0.service_ips service_ips
      → NodupKeys service_ips
      → Inv (cleanup_deleted env current service_ips s).0
  unfolding cleanup_deleted release
  cleanup_deleted-Inv current [] s v found distinct = v
  cleanup_deleted-Inv current ((key, ip) ∷ service_ips) (c, w) v found distinct =
      cleanup_deleted-Inv current service_ips _
        (if-elim (λ (s' : Controller × W). Inv s'.0) (contains current key) v
          (release-Inv key ip c v found.0))
        (if-elim (λ (s' : Controller × W). Found s'.0.service_ips service_ips)
          (contains current key) found.1
          (Found-delete key c.service_ips service_ips distinct.0 found.1))
        distinct.1

  reconcile_all-Inv :
      (svcs : List Service) (healthy : List Node) (s : Controller × W)
      → Inv s.0
      → Inv (reconcile_all env svcs healthy s).0
  unfolding reconcile_all
  reconcile_all-Inv [] healthy s v = v
  reconcile_all-Inv (svc ∷ svcs) healthy s v = reconcile_all-Inv svcs healthy _ (
      if-elim (λ (s' : Controller × W). Inv s'.0) svc.is_load_balancer
        (reconcile_service-Inv env svc healthy s v) v)

  fail_over-Inv :
      (ip uuid : String) (s : Controller × W) → Inv s.0 → Inv (fail_over env ip uuid s).0
  unfolding fail_over
  fail_over-Inv ip uuid s v = elim (Bool-cases (uuid == "")) [
    | inl none_healthy ↦ subst Inv (ground (arith, none_healthy)) v
    | inr healthy_node ↦ elim (Result-cases (ensure_node_manual_mode env uuid s).0) [
      | inr (e, failed) ↦
          subst Inv (ground (arith, healthy_node, failed))
            (ensure_node_manual_mode-Inv env uuid s v)
      | inl (u, switched) ↦ subst Inv (ground (arith, healthy_node, switched)) (
          move_ip-Inv ip uuid (ensure_node_manual_mode env uuid s).1.0
            (ensure_node_manual_mode-Inv env uuid s v))
    ]
  ]

  fail_over_all-Inv :
      (healthy : List Node) (assignments : Dict String) (s : Controller × W)
      → Inv s.0
      → Inv (fail_over_all env healthy assignments s).0
  unfolding fail_over_all
  fail_over_all-Inv healthy [] s v = v
  fail_over_all-Inv healthy ((ip, current) ∷ assignments) s v =
      fail_over_all-Inv healthy assignments _ (
        if-elim (λ (s' : Controller × W). Inv s'.0) (contains (healthy_uuids healthy) current) v
          (fail_over-Inv ip (first_uuid healthy) s v))

  check_ip_failover-Inv :
      (healthy : List Node) (s : Controller × W) → Inv s.0 → Inv (check_ip_failover env healthy s).0
  unfolding check_ip_failover
  check_ip_failover-Inv [] s v = v
  check_ip_failover-Inv (node ∷ nodes) (c, w) v =
      fail_over_all-Inv (node ∷ nodes) c.ip_assignments (c, w) v

  sync_all-Inv :
      (svcs : List Service) (healthy : List Node) (s : Controller × W)
      → Inv s.0
      → Inv (sync_all env svcs healthy s).0
  unfolding sync_all
  sync_all-Inv svcs [] s v = v
  sync_all-Inv svcs (node ∷ nodes) (c, w) v = check_ip_failover-Inv (node ∷ nodes) _ (
      reconcile_all-Inv svcs (node ∷ nodes) _ (
        cleanup_deleted-Inv _ c.service_ips (c, w) v (Found-self c.service_ips v.distinct)
          v.distinct))

  -- Whatever the calls outside answer, a sync that starts with the invariant of the controller's
  -- own maps ends with it: in `serviceIPs` no two services have the same IP and no service is
  -- listed twice, and `ipAssignments` has a node for each IP that is there. The invariant is of the
  -- maps alone, and not of what is published in the status of services.
  pub sync_load_balancers-Inv : (s : Controller × W) → Inv s.0 → Inv (sync_load_balancers env s).1.0
  unfolding sync_load_balancers
  sync_load_balancers-Inv (c, w) v = elim (Result-cases (env.kube.list_services w).0) [
    | inr (e, unlisted) ↦ subst Inv (ground (arith, unlisted)) v
    | inl (svcs, listed) ↦
        elim (Result-cases (env.kube.list_nodes (env.kube.list_services w).1).0) [
          | inr (e, unlisted) ↦ subst Inv (ground (arith, listed, unlisted)) v
          | inl (nodes, listed') ↦ subst Inv (ground (arith, listed, listed')) (
              sync_all-Inv svcs (get_healthy_nodes nodes)
                (c, (env.kube.list_nodes (env.kube.list_services w).1).1) v)
        ]
  ]
