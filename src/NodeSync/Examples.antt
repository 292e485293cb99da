-- ===== src/NodeSync/Examples.antt =====
-- A tenant cluster that counts the deletions of nodes, and the theorems on it.
use cluster_api_provider_clo.Prelude.{
  ℕ, ◌+◌, ◌*◌, ◌≡◌, ◌≢◌, refl, String, true, false, none, some, pos, [], ◌∷◌, ◌==◌, ==_iff, ok,
  Action, arith,
}
use cluster_api_provider_clo.Prelude.Dict.{lookup, insert}
use cluster_api_provider_clo.Auth.Types.{OauthApi, second, minute}
use cluster_api_provider_clo.Auth.{
  get_impersonated_token, fetch_and_store, fetch_impersonated_token, get_service_account_token,
  get_rpt_token, impersonate_user, ask_sa, ask_rpt, exchange,
}
use cluster_api_provider_clo.Cloud.Connect.{token}
use cluster_api_provider_clo.NodeSync.Refresh.{
  NodeSettings, NodeState, refresh_cloud_sigma_client, refresh_legacy, refresh_impersonated,
}
use cluster_api_provider_clo.CloudSdk.{ApiError, Server}
use cluster_api_provider_clo.NodeSync.{
  TenantNode, NodeApi, external_ip, hostname, handle_stale_node, reconcile_node, get_vm_addresses,
  vm_uuid_of,
}
use cluster_api_provider_clo.NodeSync.Failures.{refusals_add_up, reconcile_node_others}

abbrev read_server : String → Action ℕ ApiError Server
read_server uuid w = (
  ok (record {
    uuid = uuid;
    name = "n1";
    status = "running";
    drives = [];
    nics = [];
    meta = [];
    runtime_ips = [];
  }),
  w,
)

abbrev api : NodeApi ℕ
api = record {
  list_nodes = λ w. (ok [], w);
  update = λ node w. (ok tt, w);
  update_status = λ node w. (ok tt, w);
  delete_node = λ name w. (ok tt, w + 1);
  get_server = some read_server;
  list_ips = λ w. (ok (record { uuid = "1.2.3.4"; server = some "s1" } ∷ []), w);
}

abbrev node : TenantNode
node = record { name = "n1"; provider_id = "cloudsigma://s1"; taints = []; addresses = [] }

refusals_add_up_example :
    (handle_stale_node api "n1" (
      (reconcile_node api node
          ((handle_stale_node api "n1" (handle_stale_node api "n1" ([], 0)).1).1.0, 0)).1.0,
      0,
    )).1.1
    ≡ 1
unfolding vm_uuid_of get_vm_addresses lookup ◌==◌
refusals_add_up_example =
    refusals_add_up api node read_server ((hostname, "n1") ∷ (external_ip, "1.2.3.4") ∷ []) [] 0 0 0
      refl refl refl

names_apart : ("n1" == "n2") ≡ false
unfolding ◌==◌
names_apart = refl

other_name : node.name ≢ "n2"
other_name = ground (arith, names_apart, ==_iff "n1" "n2")

reconcile_node_others_example :
    lookup "n2" (reconcile_node api node (("n2", 1) ∷ [], 0)).1.0 ≡ lookup "n2" (("n2", 1) ∷ [])
reconcile_node_others_example = reconcile_node_others api node "n2" (("n2", 1) ∷ [], 0) other_name

abbrev service : OauthApi ℕ
service = record {
  new_request = λ request. ok tt;
  now = λ w. 0;
  do_request = λ request w. (ok (record { status = 200; body = ok "body" }), w);
  decode_token = λ body. ok (record { access_token = "secret"; expires_in = pos 900 });
}

abbrev settings : NodeSettings
settings = record {
  cloud_sigma_region = "";
  user_email = "a@b";
  legacy_credentials_enabled = true;
  cloud_sigma_username = "root";
  cloud_sigma_password = "password";
}

abbrev state : NodeState
state = record {
  impersonation_client = some (record {
    config = record {
      oauth_url = "https://oauth.example";
      client_id = "id";
      client_secret = "secret";
      token_expiry_buffer = 5 * minute;
      http_timeout = 30 * second;
    };
    sa_token = "";
    sa_token_expires_at = 0;
    rpt_token = "";
    rpt_token_expires_at = 0;
    token_cache = [];
  });
  cloudsigma_client = none;
  stale_node_failures = [];
}

refreshed :
    (refresh_cloud_sigma_client service settings (state, 0)).1.0.cloudsigma_client
    ≡ some (record { credentials = token "secret"; location = "direct.zrh" })
unfolding refresh_cloud_sigma_client refresh_legacy refresh_impersonated get_impersonated_token
    fetch_and_store fetch_impersonated_token get_service_account_token get_rpt_token
    impersonate_user ask_sa ask_rpt exchange lookup insert ◌==◌
refreshed = refl
