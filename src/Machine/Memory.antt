-- ===== src/Machine/Memory.antt =====
-- A cloud in memory that keeps the laws of the machine controller: its state is the servers.
use cluster_api_provider_clo.Prelude.{◌+◌, ◌≡◌, inr, refl, ap, String, List, [], ◌∷◌, ok, err}
use cluster_api_provider_clo.CloudSdk.{Server, SdkClient}
use cluster_api_provider_clo.Cloud.Types.{
  Client, HttpApi, CustomServer, Document, create_request, nic_update,
}
use cluster_api_provider_clo.Cloud.Memory.{
  refusing, client_of, still_clock, named_drive, server_one,
}
use cluster_api_provider_clo.Machine.Types.{MachineApi}
use cluster_api_provider_clo.Machine.Store.{IsCounting, carries, count_own}

abbrev made : CustomServer → Server
made server = record server_one { name = server.name; meta = server.meta; status = "stopped" }

-- A request for servers makes the first; all others make none.
abbrev created : Document → List Server → List Server
created (create_request []) servers = servers
created (create_request (server ∷ more)) servers = made server ∷ servers
created (nic_update nics) servers = servers

-- The service creates the server, and the answer is lost.
abbrev pub losing_http : HttpApi (List Server)
losing_http = record {
  new_request = λ request. ok tt;
  do_request = λ request servers. (err "connection reset", created request.body servers);
  decode_servers = λ text. ok [];
}

abbrev pub machine_sdk : SdkClient (List Server)
machine_sdk =
    let unused : SdkClient (List Server) = refusing in
    record unused {
      drives = record unused.drives {
        clone = λ source body servers. (ok (named_drive body.name), servers);
      };
      servers = record unused.servers {
        get = λ uuid servers. (ok server_one, servers);
        list = λ servers. (ok servers, servers);
        stop = λ uuid servers. (ok tt, servers);
        delete = λ uuid servers. (ok tt, servers);
      };
    }

abbrev pub machine_client : Client (List Server)
machine_client = client_of machine_sdk

abbrev pub machine_kube : MachineApi (List Server)
machine_kube = record {
  update = λ m servers. (ok m, servers);
  update_status = λ m servers. (ok m, servers);
  get_secret = λ namespace name servers. (ok (("value", "#cloud-config") ∷ []), servers);
  encode_base64 = λ text. text;
}

created_counts :
    (body : Document) (server : CustomServer) (uid : String) (servers : List Server)
    → body ≡ create_request (server ∷ [])
    → count_own uid (created body servers) ≡ carries uid server.meta + count_own uid servers
unfolding count_own
created_counts body server uid servers e = ap (λ b. count_own uid (created b servers)) e

pub machine_client-IsCounting :
    IsCounting machine_kube still_clock losing_http machine_client count_own
machine_client-IsCounting = record {
  list_keeps = λ uid servers. refl;
  get_keeps = λ uuid uid servers. refl;
  start_keeps = λ uuid uid servers. refl;
  ip_get_keeps = λ uuid uid servers. refl;
  clone_keeps = λ source body uid servers. refl;
  drive_get_keeps = λ uuid uid servers. refl;
  drive_delete_keeps = λ uuid uid servers. refl;
  tick_keeps = λ started n uid servers. refl;
  tag_list_keeps = λ uid servers. refl;
  tag_update_keeps = λ uuid body uid servers. refl;
  tag_create_keeps = λ bodies uid servers. refl;
  secret_keeps = λ namespace name uid servers. refl;
  update_keeps = λ m uid servers. refl;
  update_uid = λ m servers. refl;
  update_status_keeps = λ m uid servers. refl;
  update_status_uid = λ m servers. refl;
  create_counts =
      λ request server uid servers e. inr (created_counts request.body server uid servers e);
}
