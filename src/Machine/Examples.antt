-- ===== src/Machine/Examples.antt =====
-- Runs of the machine controller on a cloud in memory, and the theorems at concrete data.
use cluster_api_provider_clo.Prelude.{
  ◌≡◌, ◌≢◌, refl, ==_iff, String, true, false, none, some, List, [], ◌∷◌, ◌==◌, contains, decimal,
  ok, err, arith,
}
use cluster_api_provider_clo.Prelude.Dict.{lookup, insert}
use cluster_api_provider_clo.CloudSdk.{SdkClient}
use cluster_api_provider_clo.Auth.Types.{OauthApi}
use cluster_api_provider_clo.Cloud.Types.{Client}
use cluster_api_provider_clo.Cloud.Connect.{Credentials}
use cluster_api_provider_clo.Cloud.Drives.{settle_clone, clone_drive, delete_drive}
use cluster_api_provider_clo.Cloud.Custom.{authorization_of, request_of, send, create_server_direct}
use cluster_api_provider_clo.Cloud.Servers.{
  find_by_meta, find_by_name, find_server, find_server_by_name_or_meta,
}
use cluster_api_provider_clo.Cloud.Servers.Build.{
  server_drives, server_drive, server_nics, insert_all, cloud_init, build_server,
}
use cluster_api_provider_clo.Cloud.Servers.Create.{
  drive_name, clean_up, clone_drives, create_with, create_server,
}
use cluster_api_provider_clo.Cloud.Memory.{refusing, client_of, still_clock, server_one}
use cluster_api_provider_clo.Machine.Types.{Machine, MachineApi, OwnerMachine, ReconcilerConfig}
use cluster_api_provider_clo.Machine.Steps.{
  machine_finalizer, server_meta, server_spec, write, ensure_finalizer, get_bootstrap_data,
}
use cluster_api_provider_clo.Machine.Normal.{
  check_existing, after_creation, create, adopt_or_create, find_or_create, locate, observe_found,
  reconcile_normal,
}
use cluster_api_provider_clo.Machine.Store.{count_own, carries}
use cluster_api_provider_clo.Machine.Unique.{Grows, reconcile_normal-Grows}
use cluster_api_provider_clo.Machine.Delete.{reconcile_delete}
use cluster_api_provider_clo.Machine.Delete.Finalizer.{
  IsLawful, AfterDelete, reconcile_delete-AfterDelete,
}
use cluster_api_provider_clo.Machine.Delete.Progress.{IsServing, reconcile_delete_answers}
use cluster_api_provider_clo.Machine.Memory.{
  losing_http, machine_client, machine_kube, machine_client-IsCounting,
}

create_run : Unit {0}
unfolding reconcile_normal ensure_finalizer write check_existing locate find_or_create
    find_server_by_name_or_meta find_server find_by_meta find_by_name adopt_or_create create
    get_bootstrap_data create_server clone_drives clone_drive settle_clone create_with
    create_server_direct send request_of authorization_of clean_up delete_drive drive_name decimal
    server_spec server_meta build_server server_drives server_drive server_nics insert_all
    cloud_init insert lookup ◌==◌ after_creation observe_found contains count_own carries
create_run = tt

abbrev machine : Machine
machine = record {
  name = "m1";
  namespace = "default";
  uid = "u1";
  labels = [];
  finalizers = [];
  is_deleting = false;
  provider_id = none;
  cpu = 2000;
  memory = 2048;
  disks = record { uuid = "image"; device = "virtio"; boot_order = 1; size = 1000 } ∷ [];
  nics = [];
  tags = [];
  meta = ("machine-uid", "forged") ∷ [];
  instance_id = "";
  instance_state = "";
  addresses = [];
  ready = false;
  server_ready = none;
}

abbrev owner : OwnerMachine
owner = record { namespace = "default"; data_secret_name = some "bootstrap" }

-- The server is created and the answer is lost.
creates_one :
    count_own "u1"
      (reconcile_normal machine_kube still_clock losing_http machine_client owner (machine, [])).1.1
    ≡ 1
unfolding create_run
creates_one = refl

uid_unequal : ("u1" == "") ≡ false
unfolding ◌==◌
uid_unequal = refl

uid_set : machine.uid ≢ ""
uid_set = ground (arith, uid_unequal, ==_iff "u1" "")

reconcile_normal-Grows_example :
    Grows machine_kube still_clock losing_http machine_client count_own machine_client-IsCounting
      "u1" "u1"
      (count_own "u1" [])
      (check_existing machine_kube still_clock losing_http machine_client
        (ensure_finalizer machine_kube (machine, [])).1).1.1
      (count_own "u1"
        (reconcile_normal machine_kube still_clock losing_http machine_client owner
          (machine, [])).1.1)
reconcile_normal-Grows_example =
    reconcile_normal-Grows machine_kube still_clock losing_http machine_client count_own
      machine_client-IsCounting "u1" owner machine [] uid_set

-- The state is the finalizers that the Kubernetes API holds; the server never stops.
abbrev storing : MachineApi (List String)
storing = record {
  update = λ m stored. (ok m, m.finalizers);
  update_status = λ m stored. (ok m, stored);
  get_secret = λ namespace name stored. (err "no such secret", stored);
  encode_base64 = λ text. text;
}

abbrev stubborn : Client (List String)
stubborn =
    let unused : SdkClient (List String) = refusing in
    client_of (record unused {
      servers = record unused.servers {
        get = λ uuid stored. (ok server_one, stored);
        stop = λ uuid stored. (ok tt, stored);
        delete = λ uuid stored. (ok tt, stored);
      };
    })

abbrev sleep : List String → List String
sleep stored = stored

storing-IsLawful : IsLawful storing sleep stubborn (λ stored. stored)
storing-IsLawful = record {
  update_stores = λ m stored. refl;
  sleep_keeps = λ stored. refl;
  get_keeps = λ uuid stored. refl;
  stop_keeps = λ uuid stored. refl;
  delete_keeps = λ uuid stored. refl;
  drive_delete_keeps = λ uuid stored. refl;
  tag_list_keeps = λ stored. refl;
  tag_update_keeps = λ uuid body stored. refl;
  tag_create_keeps = λ bodies stored. refl;
}

storing-IsServing : IsServing storing stubborn
storing-IsServing = record {
  get_answers = λ uuid stored. refl;
  stop_answers = λ uuid stored. refl;
  delete_answers = λ uuid stored. refl;
  update_answers = λ m stored. refl;
}

abbrev leaving : Machine
leaving = record machine {
  finalizers = "other" ∷ machine_finalizer ∷ [];
  is_deleting = true;
  instance_id = "s1";
}

reconcile_delete-AfterDelete_example :
    AfterDelete storing sleep stubborn
      (λ stored. stored)
      storing-IsLawful
      ("other" ∷ machine_finalizer ∷ [])
      (reconcile_delete storing sleep stubborn (leaving, "other" ∷ machine_finalizer ∷ [])).1.1
      (reconcile_delete storing sleep stubborn (leaving, "other" ∷ machine_finalizer ∷ [])).0
reconcile_delete-AfterDelete_example =
    reconcile_delete-AfterDelete storing sleep stubborn (λ stored. stored) storing-IsLawful leaving
      ("other" ∷ machine_finalizer ∷ [])

reconcile_delete_answers_example :
    (reconcile_delete storing sleep stubborn (leaving, "other" ∷ machine_finalizer ∷ [])).0 ≡ ok tt
reconcile_delete_answers_example =
    reconcile_delete_answers storing sleep stubborn storing-IsServing leaving
      ("other" ∷ machine_finalizer ∷ [])

abbrev oauth : OauthApi (List String)
oauth = record {
  new_request = λ request. ok tt;
  now = λ stored. 0;
  do_request = λ request stored. (err "unreachable", stored);
  decode_token = λ text. err "no token";
}

abbrev new_sdk : Credentials → String → SdkClient (List String)
new_sdk credentials location = refusing

abbrev config : ReconcilerConfig
config = record {
  cloud_sigma_username = "admin";
  cloud_sigma_password = "secret";
  cloud_sigma_region = "zrh";
  legacy_credentials_enabled = true;
}

abbrev legacy : Client (List String)
legacy = client_of refusing
