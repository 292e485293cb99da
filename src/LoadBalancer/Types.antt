-- ===== src/LoadBalancer/Types.antt =====
-- The state of the controller, and what it reads and calls: fields of Kubernetes objects and of the
-- answers of the CloudSigma API, and the calls as parameters with a state `W` of their own.
use cluster_api_provider_clo.Prelude.{ℕ, String, Bool, Option, List, Action}
use cluster_api_provider_clo.Prelude.Dict.{Dict}
use cluster_api_provider_clo.CloudSdk.{Tag}

-- `CloudSigmaIP`
pub record CloudSigmaIp : Type 0 where
  pub uuid : String
  pub server : Option String
  pub subscription : Option ℕ

-- `corev1.Service`: its type is LoadBalancer or not, `ingress` holds the IPs of its status.
pub record Service : Type 0 where
  pub namespace : String
  pub name : String
  pub is_load_balancer : Bool
  pub annotations : Dict String
  pub ports : List ℕ
  pub cluster_ip : String
  pub ingress : List String

-- `corev1.Node` with the types and statuses of its conditions.
pub record Node : Type 0 where
  pub name : String
  pub provider_id : String
  pub conditions : List (String × String)

-- The pod that sets an IP up on a node. Its script is a function of the IP, the target and the port.
pub record ConfigPod : Type 0 where
  pub name : String
  pub node_name : String
  pub ip : String
  pub cluster_ip : String
  pub port : ℕ

-- The `ip_v4_conf` object of a NIC: its `conf`, where that is a string, and whether it has an `ip`.
pub record Ipv4Conf : Type 0 where
  pub conf : Option String
  pub has_ip : Bool

-- A NIC of a server document; `none` where there is no such object in it.
abbrev pub NicDocument : Type 0
NicDocument = Option Ipv4Conf

-- The Kubernetes API of the tenant cluster. An error is its text.
pub record KubeApi (W : Type 0) : Type 0 where
  pub list_services : Action W String (List Service)
  pub get_service : String → String → Action W String Service
  pub update_status : Service → Action W String (Unit {0})
  pub list_nodes : Action W String (List Node)
  pub get_endpoints : String → String → Action W String (List (List String))
  pub get_pod : String → Action W String (Unit {0})
  pub delete_pod : String → Action W String (Unit {0})
  pub create_pod : ConfigPod → Action W String (Unit {0})

-- The HTTP calls with a token. An error is that of the transport; a document that cannot be read is
-- `none`; a PUT or a POST answers with the status code.
pub record HttpApi (W : Type 0) : Type 0 where
  pub get_ips : String → Action W String (Option (List CloudSigmaIp))
  pub get_tags : String → Action W String (Option (List Tag))
  pub put_tag : String → String → String → List String → Action W String ℕ
  pub post_tag : String → String → List String → Action W String ℕ
  pub get_nics : String → String → Action W String (Option (List NicDocument))
  pub put_nics : String → String → List NicDocument → Action W String ℕ

-- What stands around the controller; `get_token` is `GetImpersonatedToken` for its user and region.
pub record Environment (W : Type 0) : Type 0 where
  pub kube : KubeApi W
  pub http : HttpApi W
  pub get_token : Action W String String

-- `LoadBalancerController`: the fields that change. The mutex is left out: a call is one step.
pub record Controller : Type 0 where
  pub cluster_name : String
  pub static_ips : List String
  pub dynamic_ips : List String
  pub ip_assignments : Dict String
  pub service_ips : Dict String
  pub manual_mode_nodes : Dict Bool
