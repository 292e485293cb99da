-- ===== src/NodeSync.antt =====
-- The node controller of the cloud controller manager, ccm/controllers/node_controller.go: syncNodes
-- with reconcileNode, getVMAddresses and handleStaleNode.
pub mod Failures
pub mod Refresh
mod Examples
use cluster_api_provider_clo.Prelude.{
  ℕ, ◌+◌, String, ◌<>◌, Bool, true, false, not, ◌&&◌, ◌||◌, Option, none, some, List, [], ◌∷◌, ◌++◌,
  ltb, ◌==◌, starts_with, contains_text, if◌then◌else◌, Action, Result, ok, err, ret, fail, map_err,
  attempt, outside, ◌>>=◌, ◌>>◌,
}
use cluster_api_provider_clo.Prelude.Dict.{Dict, lookup, insert, delete}
use cluster_api_provider_clo.CloudSdk.{ApiError, Server}
use cluster_api_provider_clo.LoadBalancer.Pool.{strip_prefix}

pub data AddressType : Type 0 where
  hostname internal_ip external_ip other_address : AddressType

-- `corev1.Node` with the keys of its taints.
pub record TenantNode : Type 0 where
  pub name : String
  pub provider_id : String
  pub taints : List String
  pub addresses : List (AddressType × String)

-- An IP of the account, with the UUID of its server if it has one.
pub record VmIp : Type 0 where
  pub uuid : String
  pub server : Option String

-- An error of the Kubernetes API, as far as the code tells them apart.
pub data KubeError : Type 0 where
  conflict not_found other_error : KubeError

-- The tenant cluster and the SDK client, as the refresh at the start of a sync left it.
pub record NodeApi (W : Type 0) : Type 0 where
  pub list_nodes : Action W KubeError (List TenantNode)
  pub update : TenantNode → Action W KubeError (Unit {0})
  pub update_status : TenantNode → Action W KubeError (Unit {0})
  pub delete_node : String → Action W KubeError (Unit {0})
  pub get_server : Option (String → Action W ApiError Server)
  pub list_ips : Action W ApiError (List VmIp)

abbrev is_init_taint : String → Bool
is_init_taint key =
    key == "node.cloudprovider.kubernetes.io/uninitialized"
    || key == "node.cluster.x-k8s.io/uninitialized"

unfoldable pub has_init_taint : List String → Bool
has_init_taint [] = false
has_init_taint (key ∷ keys) = is_init_taint key || has_init_taint keys

unfoldable pub other_taints : List String → List String
other_taints [] = []
other_taints (key ∷ keys) =
    let rest = other_taints keys in if is_init_taint key then rest else key ∷ rest

-- `hasIPAddress`
unfoldable pub has_ip_address : List (AddressType × String) → Bool
has_ip_address [] = false
has_ip_address ((internal_ip, ip) ∷ addresses) = true
has_ip_address ((external_ip, ip) ∷ addresses) = true
has_ip_address ((hostname, name) ∷ addresses) = has_ip_address addresses
has_ip_address ((other_address, name) ∷ addresses) = has_ip_address addresses

abbrev address_type : String → AddressType
address_type ip =
    if starts_with ip "10." || (starts_with ip "192.168." || starts_with ip "172.")
    then internal_ip
    else external_ip

abbrev is_attached_to : String → VmIp → Bool
is_attached_to vm_uuid ip = elim ip.server [ none ↦ false | some uuid ↦ uuid == vm_uuid ]

-- The loop of `getVMAddresses`: the first IP of the server.
unfoldable pub first_vm_ip : String → List VmIp → List (AddressType × String)
first_vm_ip vm_uuid [] = []
first_vm_ip vm_uuid (ip ∷ ips) =
    let rest = first_vm_ip vm_uuid ips in
    if is_attached_to vm_uuid ip && not (ip.uuid == "")
    then (address_type ip.uuid, ip.uuid) ∷ []
    else rest

-- The texts by which `reconcileNode` takes an error for a refusal.
abbrev pub is_refusal : String → Bool
is_refusal text = contains_text text "403" || contains_text text "permission"

-- `strings.TrimPrefix(node.Spec.ProviderID, "cloudsigma://")`
unfoldable pub vm_uuid_of : TenantNode → String
unfolding strip_prefix
vm_uuid_of node = elim (strip_prefix "cloudsigma://" node.provider_id) [
  | none ↦ node.provider_id
  | some uuid ↦ uuid
]

-- `r.staleNodeFailures[name]`
abbrev pub failures_of : String → Dict ℕ → ℕ
failures_of name failures = elim (lookup name failures) [ none ↦ 0 | some n ↦ n ]

abbrev set_addresses : List (AddressType × String) → TenantNode → TenantNode
set_addresses [] node = node
set_addresses (first ∷ addresses) node = record node { addresses = first ∷ addresses }

module _ {W : Type 0} (api : NodeApi W) where
  -- `getVMAddresses` with the client.
  unfoldable pub get_vm_addresses :
      (String → Action W ApiError Server) → String → Action W String (List (AddressType × String))
  unfolding first_vm_ip
  get_vm_addresses get_server vm_uuid = do
    server ← map_err (λ e. "failed to get server: " <> e.message) (get_server vm_uuid)
    let host = if server.name == "" then [] else (hostname, server.name) ∷ []
    listed ← attempt api.list_ips
    elim listed [ err e ↦ ret host | ok ips ↦ ret (host ++ first_vm_ip vm_uuid ips) ]

  -- `handleStaleNode`; the state is `staleNodeFailures` and the outside.
  unfoldable pub handle_stale_node : String → Action (Dict ℕ × W) String (Unit {0})
  handle_stale_node name (failures, w) =
      let count = failures_of name failures + 1 in
      let counted = insert name count failures in
      let (deleted, w') = api.delete_node name w in
      if ltb count 3 then (ok tt, (counted, w)) else elim deleted [
        | ok _ ↦ (ok tt, (delete name counted, w'))
        | err not_found ↦ (ok tt, (delete name counted, w'))
        | err conflict ↦ (err "failed to delete stale node", (counted, w'))
        | err other_error ↦ (err "failed to delete stale node", (counted, w'))
      ]

  -- A conflict ends the reconciliation without an error.
  abbrev or_conflict :
      String → Result KubeError (Unit {0}) → Action W String (Unit {0}) → Action W String (Unit {0})
  or_conflict text (ok _) rest = rest
  or_conflict text (err conflict) rest = ret tt
  or_conflict text (err not_found) rest = fail text
  or_conflict text (err other_error) rest = fail text

  abbrev is_empty : List (AddressType × String) → Bool
  is_empty [] = true
  is_empty (first ∷ addresses) = false

  -- "Update node status (addresses)"
  unfoldable pub write_status : Bool → TenantNode → Action W String (Unit {0})
  write_status needs_addresses node =
      if needs_addresses && not (is_empty node.addresses)
      then attempt (api.update_status node)
        >>= (λ written. or_conflict "failed to update node status" written (ret tt))
      else ret tt

  -- The two updates of `reconcileNode`, with the taints taken off.
  unfoldable pub write_back : Bool → Bool → TenantNode → Action W String (Unit {0})
  unfolding write_status other_taints
  write_back tainted needs_addresses node =
      let bare : TenantNode = record node { taints = other_taints node.taints } in
      if tainted
      then attempt (api.update bare) >>= (λ written.
        or_conflict "failed to update node spec" written (write_status needs_addresses bare))
      else write_status needs_addresses node

  -- What `reconcileNode` does with the answer for the addresses.
  unfoldable pub with_addresses :
      Bool
      → TenantNode
      → Result String (List (AddressType × String))
      → Action (Dict ℕ × W) String (Unit {0})
  with_addresses tainted node (ok addresses) =
      outside (write_back tainted true (set_addresses addresses node))
  with_addresses tainted node (err e) =
      if is_refusal e then handle_stale_node node.name else outside (write_back tainted true node)

  -- `reconcileNode`
  unfoldable pub reconcile_node : TenantNode → Action (Dict ℕ × W) String (Unit {0})
  reconcile_node node (failures, w) =
      let tainted = has_init_taint node.taints in
      let needs_addresses = not (has_ip_address node.addresses) in
      if not tainted && not needs_addresses
      then (ok tt, (failures, w))
      else if needs_addresses && not (node.provider_id == "")
      then elim api.get_server [
        | none ↦ outside (write_back tainted needs_addresses node) (failures, w)
        | some get_server ↦
            let (answer, w') = get_vm_addresses get_server (vm_uuid_of node) w in
            with_addresses tainted node answer (failures, w')
      ]
      else outside (write_back tainted needs_addresses node) (failures, w)

  -- The loop of `syncNodes`; an error is logged.
  unfoldable pub reconcile_nodes : List TenantNode → Dict ℕ × W → Dict ℕ × W
  reconcile_nodes [] s = s
  reconcile_nodes (node ∷ nodes) s = reconcile_nodes nodes (reconcile_node node s).1

  -- `syncNodes` behind the refresh of the client.
  unfoldable pub sync_nodes : Action (Dict ℕ × W) KubeError (Unit {0})
  sync_nodes = do nodes ← outside api.list_nodes; λ s. (ok tt, reconcile_nodes nodes s)
