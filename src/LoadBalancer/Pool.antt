-- ===== src/LoadBalancer/Pool.antt =====
-- The parts of loadbalancer_controller.go that only compute: pools, keys, healthy nodes and names.
use Prim.Native.Char.{code, Char}
use cluster_api_provider_clo.Prelude.{
  String, ◌<>◌, Bool, false, ◌&&◌, ◌||◌, Option, none, some, List, [], ◌∷◌, ◌++◌, ◌==◌, nat_eq,
  contains, if◌then◌else◌,
}
use cluster_api_provider_clo.Prelude.Dict.{lookup}
use cluster_api_provider_clo.LoadBalancer.Types.{CloudSigmaIp, Service, Node, Controller}

-- `isPoolIPLocked`
unfoldable pub is_pool_ip : Controller → String → Bool
unfolding contains
is_pool_ip c ip = contains c.static_ips ip || contains c.dynamic_ips ip

-- `fmt.Sprintf("%s/%s", svc.Namespace, svc.Name)`
abbrev pub service_key : Service → String
service_key svc = svc.namespace <> ("/" <> svc.name)

pub data PoolType : Type 0 where
  static dynamic : PoolType

-- `getIPPoolType`
unfoldable pub get_ip_pool_type : Service → PoolType
unfolding lookup
get_ip_pool_type svc = elim (lookup "cloudsigma.com/ip-pool" svc.annotations) [
  | none ↦ static
  | some pool_type ↦ if pool_type == "dynamic" then dynamic else static
]

abbrev pub pool_of : Controller → PoolType → List String
pool_of c static = c.static_ips
pool_of c dynamic = c.dynamic_ips

-- A condition `Ready` with the status `True` is among them.
is_ready : List (String × String) → Bool
is_ready [] = false
is_ready ((type, status) ∷ conditions) = type == "Ready" && status == "True" || is_ready conditions

-- `getHealthyNodes`
unfoldable pub get_healthy_nodes : List Node → List Node
unfolding is_ready
get_healthy_nodes [] = []
get_healthy_nodes (node ∷ nodes) =
    let rest = get_healthy_nodes nodes in if is_ready node.conditions then node ∷ rest else rest

-- What follows a prefix.
unfoldable pub strip_prefix : String → String → Option String
strip_prefix String.[] s = some s
strip_prefix (String.◌∷◌ c prefix) String.[] = none
strip_prefix (String.◌∷◌ c prefix) (String.◌∷◌ d s) =
    if nat_eq (code c) (code d) then strip_prefix prefix s else none

-- `getNodeUUID`
unfoldable pub get_node_uuid : Node → String
unfolding strip_prefix
get_node_uuid node = elim (strip_prefix "cloudsigma://" node.provider_id) [
  | none ↦ ""
  | some uuid ↦ uuid
]

-- `strings.ReplaceAll(s, from, to)` for single characters.
unfoldable pub replace_char : Char → Char → String → String
replace_char from to String.[] = String.[]
replace_char from to (String.◌∷◌ c s) =
    String.◌∷◌ (if nat_eq (code c) (code from) then to else c) (replace_char from to s)

unfoldable pub pod_name : String → String
unfolding replace_char
pod_name ip = "lb-ip-" <> replace_char "." "-" ip

-- The loop of `discoverOwnedIPs`: IPs with a subscription are static, the others dynamic.
unfoldable pub add_discovered : List CloudSigmaIp → Controller → Controller
add_discovered [] c = c
add_discovered (ip ∷ ips) c = add_discovered ips (elim ip.subscription [
  | some id ↦ record c { static_ips = c.static_ips ++ (ip.uuid ∷ []) }
  | none ↦ record c { dynamic_ips = c.dynamic_ips ++ (ip.uuid ∷ []) }
])
