-- ===== src/LoadBalancer/Reconcile/Inv.antt =====
-- What reconcileService does to the maps of the controller, serviceIPs and ipAssignments.
use cluster_api_provider_clo.Prelude.{
  ◌≡◌, sym, ap, subst, ◌∙◌, String, true, false, none, some, List, ◌==◌, ==_iff, arith,
  Result-cases, Bool-cases, Option-cases, inl, inr,
}
use cluster_api_provider_clo.Prelude.Dict.{Dict, lookup, lookup-insert, NodupKeys, insert-NodupKeys}
use cluster_api_provider_clo.LoadBalancer.Types.{Service, Node, Environment, Controller}
use cluster_api_provider_clo.LoadBalancer.Pool.{service_key}
use cluster_api_provider_clo.LoadBalancer.Nodes.{ensure_node_manual_mode}
use cluster_api_provider_clo.LoadBalancer.Reconcile.{
  is_assigned, assign, allocate_ip, first_pool_ip, first_uuid, reconcile_existing, assign_to_node,
  reconcile_new, reconcile_service,
}
use cluster_api_provider_clo.LoadBalancer.Reconcile.Allocation.{IsChosen, allocate_ip-IsChosen}

-- No two services share an IP, each IP of a service is assigned to a node, and the services are a
-- map.
pub record Inv (c : Controller) : Type 0 where
  pub assigned :
      (key ip : String)
      → lookup key c.service_ips ≡ some ip
      → is_assigned c.ip_assignments ip ≡ true
  pub exclusive :
      (key other ip : String)
      → lookup key c.service_ips ≡ some ip
      → lookup other c.service_ips ≡ some ip
      → key ≡ other
  pub distinct : NodupKeys c.service_ips

-- Giving a service an IP that is not assigned keeps the invariant.
pub assign-Inv :
    (ip uuid key : String) (c : Controller)
    → Inv c
    → is_assigned c.ip_assignments ip ≡ false
    → Inv (assign ip uuid key c)
unfolding assign
assign-Inv ip uuid key c v free = record {
  assigned = λ k i h. ground (
    arith,
    lookup-insert key k ip c.service_ips,
    lookup-insert ip i uuid c.ip_assignments,
    v.assigned k i,
    ==_iff ip i,
  );
  exclusive = λ k j i h h'. ground (
    arith,
    lookup-insert key k ip c.service_ips,
    lookup-insert key j ip c.service_ips,
    v.assigned k i,
    v.assigned j i,
    v.exclusive k j i,
    ==_iff key k,
    ==_iff key j,
  );
  distinct = insert-NodupKeys key ip c.service_ips v.distinct;
}

-- The invariant reads the two maps only.
pub Inv-transport :
    (c d : Controller)
    → d.service_ips ≡ c.service_ips
    → d.ip_assignments ≡ c.ip_assignments
    → Inv c
    → Inv d
Inv-transport c d e e' v = record {
  assigned = λ k i h. ground (arith, e, e', h, v.assigned k i);
  exclusive = λ k j i h h'. ground (arith, e, h, h', v.exclusive k j i);
  distinct = subst NodupKeys (sym e) v.distinct;
}

module _ {W : Type 0} (env : Environment W) where
  pub ensure_node_manual_mode_service_ips :
      (uuid : String) (s : Controller × W)
      → (ensure_node_manual_mode env uuid s).1.0.service_ips ≡ s.0.service_ips
  unfolding ensure_node_manual_mode
  ensure_node_manual_mode_service_ips uuid s = ground arith

  pub ensure_node_manual_mode_ip_assignments :
      (uuid : String) (s : Controller × W)
      → (ensure_node_manual_mode env uuid s).1.0.ip_assignments ≡ s.0.ip_assignments
  unfolding ensure_node_manual_mode
  ensure_node_manual_mode_ip_assignments uuid s = ground arith

  pub ensure_node_manual_mode-Inv :
      (uuid : String) (s : Controller × W) → Inv s.0 → Inv (ensure_node_manual_mode env uuid s).1.0
  ensure_node_manual_mode-Inv uuid s v =
      Inv-transport s.0 _ (ensure_node_manual_mode_service_ips uuid s)
        (ensure_node_manual_mode_ip_assignments uuid s) v

  reconcile_existing-Inv :
      (svc : Service) (healthy : List Node) (ip : String) (s : Controller × W)
      → Inv s.0
      → Inv (reconcile_existing env svc healthy ip s).0
  unfolding reconcile_existing
  reconcile_existing-Inv svc healthy ip (c, w) v =
      elim (Option-cases (lookup ip c.ip_assignments)) [
        | inl free ↦ elim (Bool-cases (first_uuid healthy == "")) [
          | inl none_healthy ↦ subst Inv (ground (arith, free, none_healthy)) v
          | inr healthy_node ↦
              subst Inv (ground (arith, free, healthy_node))
                (assign-Inv ip (first_uuid healthy) (service_key svc) c v (ground (arith, free)))
        ]
        | inr (uuid, e) ↦ subst Inv (ground (arith, e)) v
      ]

  assign_to_node-Inv :
      (svc : Service) (healthy : List Node) (ip : String) (s : Controller × W)
      → Inv s.0
      → is_assigned s.0.ip_assignments ip ≡ false
      → Inv (assign_to_node env svc healthy ip s).1.0
  unfolding assign_to_node
  assign_to_node-Inv svc healthy ip s v free = elim (Bool-cases (first_uuid healthy == "")) [
    | inl none_healthy ↦ subst Inv (ground (arith, none_healthy)) v
    | inr healthy_node ↦
        elim (Result-cases (ensure_node_manual_mode env (first_uuid healthy) s).0) [
          | inr (e, failed) ↦
              subst Inv (ground (arith, healthy_node, failed))
                (ensure_node_manual_mode-Inv (first_uuid healthy) s v)
          | inl (u, switched) ↦ subst Inv (ground (arith, healthy_node, switched)) (
              assign-Inv ip (first_uuid healthy) (service_key svc)
                (ensure_node_manual_mode env (first_uuid healthy) s).1.0
                (ensure_node_manual_mode-Inv (first_uuid healthy) s v)
                (ap (λ assignments. is_assigned assignments ip)
                    (ensure_node_manual_mode_ip_assignments (first_uuid healthy) s)
                  ∙ free))
        ]
  ]

  unassigned :
      (assignments : Dict String) (ip : String)
      → lookup ip assignments ≡ none
      → is_assigned assignments ip ≡ false
  unassigned assignments ip h = ground (arith, h)

  reconcile_new-Inv :
      (svc : Service) (healthy : List Node) (s : Controller × W)
      → Inv s.0
      → Inv (reconcile_new env svc healthy s).1.0
  unfolding reconcile_new
  reconcile_new-Inv svc healthy (c, w) v = elim (Bool-cases ((allocate_ip env c svc w).0 == "")) [
    | inl nothing ↦ subst Inv (ground (arith, nothing)) v
    | inr chosen ↦ subst Inv (ground (arith, chosen)) (
        assign_to_node-Inv svc healthy (allocate_ip env c svc w).0 (c, (allocate_ip env c svc w).1)
          v
          (unassigned c.ip_assignments (allocate_ip env c svc w).0 (
            IsChosen.is_free (
              allocate_ip-IsChosen env c svc w
                (ground (arith, chosen, ==_iff (allocate_ip env c svc w).0 ""))))))
  ]

  -- Whatever is outside, reconciling a service keeps the invariant.
  pub reconcile_service-Inv :
      (svc : Service) (healthy : List Node) (s : Controller × W)
      → Inv s.0
      → Inv (reconcile_service env svc healthy s).1.0
  unfolding reconcile_service
  reconcile_service-Inv svc healthy (c, w) v = elim (Option-cases (first_pool_ip c svc.ingress)) [
    | inr (ip, e) ↦ subst Inv (ground (arith, e)) (reconcile_existing-Inv svc healthy ip (c, w) v)
    | inl e ↦ elim (Option-cases (lookup (service_key svc) c.service_ips)) [
      | inr (ip, e') ↦ subst Inv (ground (arith, e, e')) v
      | inl e' ↦ subst Inv (ground (arith, e, e')) (reconcile_new-Inv svc healthy (c, w) v)
    ]
  ]
