-- ===== src/NodeSync/Failures.antt =====
-- The counter of refusals, after which a node is taken for stale and deleted.
use cluster_api_provider_clo.Prelude.{
  ℕ, ◌+◌, ◌≡◌, ◌≢◌, inl, inr, refl, ap, ◌∙◌, String, Bool, none, some, List, ==_iff, Result, ok,
  err, arith, Option-cases, if-elim, Action,
}
use cluster_api_provider_clo.Prelude.Dict.{Dict, lookup, insert, lookup-insert, lookup-delete}
use cluster_api_provider_clo.CloudSdk.{ApiError, Server}
use cluster_api_provider_clo.NodeSync.{
  AddressType, has_init_taint, TenantNode, NodeApi, failures_of, handle_stale_node, with_addresses,
  reconcile_node, get_vm_addresses, vm_uuid_of, is_refusal,
}

module _ {W : Type 0} (api : NodeApi W) where
  handle_stale_node_twice :
      (name : String) (failures : Dict ℕ) (w : W)
      → lookup name failures ≡ none
      → failures_of name
          (handle_stale_node api name (handle_stale_node api name (failures, w)).1).1.0
        ≡ 2
  unfolding handle_stale_node
  handle_stale_node_twice name failures w h = ground (
    arith,
    ==_iff name name,
    lookup-insert name name 1 failures,
    lookup-insert name name 2 (insert name 1 failures),
  )

  handle_stale_node_third :
      (name : String) (failures : Dict ℕ) (w : W)
      → failures_of name failures ≡ 2
      → (handle_stale_node api name (failures, w)).1.1 ≡ (api.delete_node name w).1
  unfolding handle_stale_node
  handle_stale_node_third name failures w h = ground arith

  handle_stale_node_others :
      (name other : String) (s : Dict ℕ × W)
      → name ≢ other
      → lookup other (handle_stale_node api name s).1.0 ≡ lookup other s.0
  unfolding handle_stale_node
  handle_stale_node_others name other s apart = ground (
    arith,
    ==_iff name other,
    lookup-insert name other (failures_of name s.0 + 1) s.0,
    lookup-delete name other (insert name (failures_of name s.0 + 1) s.0),
  )

  with_addresses_ok :
      (tainted : Bool) (node : TenantNode) (answer : Result String (List (AddressType × String)))
      (addresses : List (AddressType × String)) (s : Dict ℕ × W)
      → answer ≡ ok addresses
      → (with_addresses api tainted node answer s).1.0 ≡ s.0
  unfolding with_addresses
  with_addresses_ok tainted node answer addresses s e =
      ap (λ a. (with_addresses api tainted node a s).1.0) e

  -- A node whose VM could be read keeps its count.
  reconcile_node_recovered :
      (node : TenantNode) (get_server : String → Action W ApiError Server)
      (addresses : List (AddressType × String)) (s : Dict ℕ × W)
      → api.get_server ≡ some get_server
      → (get_vm_addresses api get_server (vm_uuid_of node) s.1).0 ≡ ok addresses
      → (reconcile_node api node s).1.0 ≡ s.0
  unfolding reconcile_node
  reconcile_node_recovered node get_server addresses s set e = ground (
    arith,
    with_addresses_ok (has_init_taint node.taints) node
        (get_vm_addresses api get_server (vm_uuid_of node) s.1).0 addresses
        (s.0, (get_vm_addresses api get_server (vm_uuid_of node) s.1).1) e,
  )

  -- Three refusals of a node that had none get it deleted, also when its VM could be read in between:
  -- after two refusals and a reconciliation that read the VM, the next refusal deletes the node.
  pub refusals_add_up :
      (node : TenantNode) (get_server : String → Action W ApiError Server)
      (addresses : List (AddressType × String)) (failures : Dict ℕ) (w later last : W)
      → lookup node.name failures ≡ none
      → api.get_server ≡ some get_server
      → (get_vm_addresses api get_server (vm_uuid_of node) later).0 ≡ ok addresses
      → (handle_stale_node api node.name (
        (reconcile_node api node (
          (handle_stale_node api node.name (handle_stale_node api node.name (failures, w)).1).1.0,
          later,
        )).1.0,
        last,
      )).1.1
        ≡ (api.delete_node node.name last).1
  refusals_add_up node get_server addresses failures w later last h set e =
      let counted =
        (handle_stale_node api node.name (handle_stale_node api node.name (failures, w)).1).1.0 in
      handle_stale_node_third node.name _ last (
        ap (failures_of node.name)
          (reconcile_node_recovered node get_server addresses (counted, later) set e)
        ∙ handle_stale_node_twice node.name failures w h)

  with_addresses_others :
      (tainted : Bool) (node : TenantNode) (answer : Result String (List (AddressType × String)))
      (other : String) (s : Dict ℕ × W)
      → node.name ≢ other
      → lookup other (with_addresses api tainted node answer s).1.0 ≡ lookup other s.0
  unfolding with_addresses
  with_addresses_others tainted node (ok addresses) other s apart = refl
  with_addresses_others tainted node (err e) other s apart =
      if-elim
        (λ (m : Action (Dict ℕ × W) String (Unit {0})). lookup other (m s).1.0 ≡ lookup other s.0)
        (is_refusal e) (handle_stale_node_others node.name other s apart) refl

  -- Reconciling a node leaves the counts of all other nodes alone, however it ends.
  pub reconcile_node_others :
      (node : TenantNode) (other : String) (s : Dict ℕ × W)
      → node.name ≢ other
      → lookup other (reconcile_node api node s).1.0 ≡ lookup other s.0
  unfolding reconcile_node
  reconcile_node_others node other s apart = elim (Option-cases api.get_server) [
    | inl unset ↦ ground (arith, unset)
    | inr (get_server, set) ↦ ground (
      arith,
      set,
      with_addresses_others (has_init_taint node.taints) node
          (get_vm_addresses api get_server (vm_uuid_of node) s.1).0 other
          (s.0, (get_vm_addresses api get_server (vm_uuid_of node) s.1).1) apart,
    )
  ]
