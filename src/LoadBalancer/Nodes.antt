-- ===== src/LoadBalancer/Nodes.antt =====
-- What the controller does on nodes and pods: ensureNodeManualMode, configureIPOnNode,
-- ensureIPConfigured, deleteIPConfigPod, getEndpointIP and updateServiceStatus.
use cluster_api_provider_clo.Prelude.{
  ℕ, String, Bool, true, false, ◌||◌, Option, none, some, List, [], ◌∷◌, ltb, ◌==◌, if◌then◌else◌,
  Action, ok, err, ret, fail, attempt, ◌>>=◌, ◌>>◌,
}
use cluster_api_provider_clo.Prelude.Dict.{lookup, insert}
use cluster_api_provider_clo.LoadBalancer.Types.{
  NicDocument, Service, Node, Environment, Controller,
}
use cluster_api_provider_clo.LoadBalancer.Pool.{pod_name}

-- A NIC is in manual mode.
unfoldable pub has_manual : List NicDocument → Bool
has_manual [] = false
has_manual (none ∷ nics) = has_manual nics
has_manual (some conf ∷ nics) = elim conf.conf [
  | none ↦ has_manual nics
  | some mode ↦ mode == "manual" || has_manual nics
]

-- The first public NIC goes to manual mode and loses its IP; `none` where there is no public NIC.
unfoldable pub switch_first : List NicDocument → Option (List NicDocument)
switch_first [] = none
switch_first (none ∷ nics) = elim (switch_first nics) [
  | none ↦ none
  | some switched ↦ some (none ∷ switched)
]
switch_first (some conf ∷ nics) =
    some (some (record { conf = some "manual"; has_ip = false }) ∷ nics)

-- `strings.HasSuffix`
unfoldable pub ends_with : String → String → Bool
ends_with String.[] suffix = String.[] == suffix
ends_with (String.◌∷◌ c s) suffix = String.◌∷◌ c s == suffix || ends_with s suffix

abbrev pub is_known_manual : Controller → String → Bool
is_known_manual c uuid = elim (lookup uuid c.manual_mode_nodes) [
  | none ↦ false
  | some known ↦ known
]

abbrev set_manual : String → Controller → Controller
set_manual uuid c = record c { manual_mode_nodes = insert uuid true c.manual_mode_nodes }

-- The first address of a subset that is not empty.
first_in : List String → Option String
first_in [] = none
first_in (ip ∷ ips) = if ip == "" then first_in ips else some ip

-- The first such address of all subsets.
first_address : List (List String) → String
unfolding first_in
first_address [] = ""
first_address (subset ∷ subsets) = elim (first_in subset) [
  | none ↦ first_address subsets
  | some ip ↦ ip
]

unfoldable pub find_node : String → List Node → Option Node
unfolding ends_with
find_node uuid [] = none
find_node uuid (node ∷ nodes) =
    if ends_with node.provider_id uuid then some node else find_node uuid nodes

module _ {W : Type 0} (env : Environment W) where
  -- The reading and switching part of `ensureNodeManualMode`.
  switch_to_manual : String → Action W String (Unit {0})
  unfolding has_manual switch_first
  switch_to_manual uuid = do
    token ← env.get_token
    document ← env.http.get_nics token uuid
    elim document [
      | none ↦ fail "failed to parse server"
      | some nics ↦ if has_manual nics then ret tt else elim (switch_first nics) [
        | none ↦ fail "no public NIC found"
        | some switched ↦ do
          code ← env.http.put_nics token uuid switched
          if ltb code 400 then ret tt else fail "failed to switch NIC to manual mode"
      ]
    ]

  -- `ensureNodeManualMode`
  unfoldable pub ensure_node_manual_mode : String → Action (Controller × W) String (Unit {0})
  unfolding switch_to_manual lookup insert
  ensure_node_manual_mode uuid (c, w) =
      if is_known_manual c uuid
      then (ok tt, (c, w))
      else let (switched, w') = switch_to_manual uuid w in
        elim switched [ err e ↦ (err e, (c, w')) | ok _ ↦ (ok tt, (set_manual uuid c, w')) ]

  -- `getEndpointIP`, and the ClusterIP where it gives nothing.
  unfoldable pub endpoint_or_cluster_ip : Service → W → String × W
  unfolding first_address
  endpoint_or_cluster_ip svc w =
      let (endpoints, w') = env.kube.get_endpoints svc.namespace svc.name w in
      elim endpoints [
        | err e ↦ (svc.cluster_ip, w')
        | ok subsets ↦
            let ip = first_address subsets in (if ip == "" then svc.cluster_ip else ip, w')
      ]

  -- `configureIPOnNode`
  unfoldable pub configure_ip_on_node : String → String → String → ℕ → Action W String (Unit {0})
  unfolding find_node pod_name
  configure_ip_on_node ip uuid target port = do
    nodes ← env.kube.list_nodes
    elim (find_node uuid nodes) [
      | none ↦ fail "node not found"
      | some node ↦ do
        attempt {F = String} (env.kube.delete_pod (pod_name ip))
        env.kube.create_pod (record {
          name = pod_name ip;
          node_name = node.name;
          ip = ip;
          cluster_ip = target;
          port = port;
        })
    ]

  -- `ensureIPConfigured`
  unfoldable pub ensure_ip_configured : String → String → String → ℕ → W → W
  unfolding configure_ip_on_node
  ensure_ip_configured ip uuid target port w =
      let (found, w') = env.kube.get_pod (pod_name ip) w in
      elim found [ ok _ ↦ w' | err e ↦ (configure_ip_on_node ip uuid target port w').1 ]

  -- `deleteIPConfigPod`
  unfoldable pub delete_ip_config_pod : String → W → W
  unfolding pod_name
  delete_ip_config_pod ip w = (env.kube.delete_pod (pod_name ip) w).1

  -- `updateServiceStatus`
  unfoldable pub update_service_status : Service → String → Action W String (Unit {0})
  update_service_status svc ip =
      if ip == "" then ret tt else env.kube.update_status (record svc { ingress = ip ∷ [] })
