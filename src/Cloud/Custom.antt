-- ===== src/Cloud/Custom.antt =====
-- pkg/cloud/servers_custom.go: servers are created, and their NICs set, by direct HTTP calls.
pub mod Frame
use cluster_api_provider_clo.Prelude.{
  ℕ, String, ◌<>◌, Bool, not, ◌&&◌, Option, some, none, List, [], ◌∷◌, ltb, ◌==◌, decimal,
  if◌then◌else◌, Action, Result, ok, err, ret, fail, map_err, guard, ◌>>=◌, ◌>>◌,
}
use cluster_api_provider_clo.CloudSdk.{ApiError, Server, ServerNic}
use cluster_api_provider_clo.GoError.{Error, sdk, plain, wrap}
use cluster_api_provider_clo.Cloud.Types.{
  Client, CustomServer, CustomServerNic, Document, create_request, nic_update, Authorization,
  bearer, basic, HttpRequest, HttpApi,
}

-- "Use Bearer token for impersonation, Basic Auth for legacy"
unfoldable pub authorization_of : {W : Type 0} → Client W → Authorization
authorization_of c =
    if c.use_impersonation && not (c.access_token == "")
    then bearer c.access_token
    else basic c.username c.password

abbrev pub endpoint_of : {W : Type 0} → Client W → String
endpoint_of c =
    if c.api_endpoint == "" then "https://next.cloudsigma.com/api/2.0" else c.api_endpoint

abbrev pub static_nics : String → List CustomServerNic
static_nics ip_uuid =
    record { vlan = ""; ip_v4_conf = some (record { conf = "static"; ip = some ip_uuid }) } ∷ []

abbrev pub dhcp_nic : CustomServerNic
dhcp_nic = record { vlan = ""; ip_v4_conf = some (record { conf = "dhcp"; ip = none }) }

unfoldable pub request_of : {W : Type 0} → Client W → String → String → Document → HttpRequest
unfolding authorization_of
request_of c verb url body = record {
  verb = verb;
  url = url;
  authorization = authorization_of c;
  body = body;
}

module _ {W : Type 0} (http : HttpApi W) (c : Client W) where
  -- The exchange of `createServerDirect` and `UpdateServerNICs`, up to the body of the answer.
  unfoldable pub send : String → String → Document → Action W Error String
  unfolding request_of decimal
  send verb url body = do
    let request = request_of c verb url body
    map_err (λ e. wrap "failed to create request" (plain e)) (λ w. (http.new_request request, w))
    response ← map_err (λ e. wrap "failed to execute request" (plain e)) (http.do_request request)
    text ← map_err (λ e. wrap "failed to read response" (plain e)) (λ w. (response.body, w))
    guard (ltb response.status 400)
        (plain ("API error " <> (decimal response.status <> (": " <> text))))
    ret text

  -- `createServerDirect` behind the exchange.
  unfoldable pub first_server : String → Result Error Server
  first_server text = elim (http.decode_servers text) [
    | err e ↦ err (wrap "failed to unmarshal response" (plain e))
    | ok servers ↦ elim servers [
      | [] ↦ err (plain "no server returned in response")
      | server ∷ more ↦ ok server
    ]
  ]

  -- `createServerDirect`
  unfoldable pub create_server_direct : CustomServer → Action W Error Server
  unfolding send first_server
  create_server_direct server = do
    text ← send "POST" (endpoint_of c <> "/servers/") (create_request (server ∷ []))
    λ w. (first_server text, w)

  -- `UpdateServerNICs`
  unfoldable pub update_server_nics : String → List CustomServerNic → Action W Error (Unit {0})
  unfolding send
  update_server_nics server_uuid nics = do
    send "PUT" (endpoint_of c <> ("/servers/" <> (server_uuid <> "/"))) (nic_update nics)
    ret tt

  -- `AttachStaticIP`
  unfoldable pub attach_static_ip : String → String → Action W Error (Unit {0})
  unfolding update_server_nics
  attach_static_ip server_uuid ip_uuid = update_server_nics server_uuid (static_nics ip_uuid)

  -- `DetachStaticIP`
  unfoldable pub detach_static_ip : String → Action W Error (Unit {0})
  unfolding update_server_nics
  detach_static_ip server_uuid = update_server_nics server_uuid (dhcp_nic ∷ [])

-- `GetServerNICs`
unfoldable pub get_server_nics : {W : Type 0} → Client W → String → Action W Error (List ServerNic)
get_server_nics c server_uuid = do
  server ← map_err (λ e. wrap "failed to get server" (sdk e)) (c.sdk.servers.get server_uuid)
  ret server.nics
