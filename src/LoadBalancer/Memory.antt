-- ===== src/LoadBalancer/Memory.antt =====
-- A tenant cluster with a CloudSigma account in memory, to run the controller on.
use cluster_api_provider_clo.Prelude.{
  String, true, some, List, [], ◌∷◌, ◌==◌, if◌then◌else◌, ok, err,
}
use cluster_api_provider_clo.CloudSdk.{Tag}
use cluster_api_provider_clo.LoadBalancer.Types.{
  CloudSigmaIp, Service, Node, Environment, NicDocument,
}

pub record Cluster : Type 0 where
  pub services : List Service
  pub nodes : List Node
  pub ips : List CloudSigmaIp
  pub tags : List Tag
  pub pods : List String
  pub published : List (String × String)

abbrev put : String → String → List String → List Tag → List Tag
put uuid name resources [] = []
put uuid name resources (tag ∷ tags) =
    let rest = put uuid name resources tags in
    if tag.uuid == uuid
    then record { uuid = uuid; name = name; resources = resources } ∷ tags
    else tag ∷ rest

abbrev first_of : List String → String
first_of [] = ""
first_of (ip ∷ ips) = ip

abbrev public_nic : NicDocument
public_nic = some (record { conf = some "dhcp"; has_ip = true })

-- The names of new tags are their UUIDs.
abbrev pub environment : Environment Cluster
environment = record {
  kube = record {
    list_services = λ w. (ok w.services, w);
    get_service = λ namespace name w. (err "not found", w);
    update_status =
        λ svc w. (ok tt, record w { published = (svc.name, first_of svc.ingress) ∷ w.published });
    list_nodes = λ w. (ok w.nodes, w);
    get_endpoints = λ namespace name w. (ok (("10.0.0.1" ∷ []) ∷ []), w);
    get_pod = λ name w. (err "not found", w);
    delete_pod = λ name w. (ok tt, w);
    create_pod = λ pod w. (ok tt, record w { pods = pod.name ∷ w.pods });
  };
  http = record {
    get_ips = λ token w. (ok (some w.ips), w);
    get_tags = λ token w. (ok (some w.tags), w);
    put_tag =
        λ token uuid name resources w. (ok 200, record w { tags = put uuid name resources w.tags });
    post_tag = λ token name resources w. (
      ok 201,
      record w { tags = record { uuid = name; name = name; resources = resources } ∷ w.tags },
    );
    get_nics = λ token uuid w. (ok (some (public_nic ∷ [])), w);
    put_nics = λ token uuid nics w. (ok 200, w);
  };
  get_token = λ w. (ok "token", w);
}
