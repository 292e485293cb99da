-- ===== src/Cloud/Examples.antt =====
-- Runs of the client of pkg/cloud on services in memory, and the theorems at concrete data.
use cluster_api_provider_clo.Prelude.{
  ℕ, String, ◌≡◌, ◌≢◌, ==_iff, refl, false, Option, none, some, List, [], ◌∷◌, ◌==◌, decimal, ok,
  err, arith,
}
use cluster_api_provider_clo.Prelude.Dict.{insert}
use cluster_api_provider_clo.CloudSdk.{ApiError, Drive, Server, SdkClient}
use cluster_api_provider_clo.Cloud.Types.{Client}
use cluster_api_provider_clo.Cloud.Drives.{
  has_status, wait_loop, wait_for_drive_ready, settle_clone, clone_drive, delete_drive,
}
use cluster_api_provider_clo.Cloud.Drives.Wait.{wait_for_drive_ready_returns}
use cluster_api_provider_clo.Cloud.Custom.{authorization_of, request_of, send, create_server_direct}
use cluster_api_provider_clo.Cloud.Servers.{get_server, classify, find_server_by_name_or_meta}
use cluster_api_provider_clo.Cloud.Servers.Build.{
  Disk, ServerSpec, server_drives, server_drive, server_nics, insert_all, cloud_init, build_server,
}
use cluster_api_provider_clo.Cloud.Servers.Create.{
  drive_name, clean_up, clone_drives, create_with, create_server,
}
use cluster_api_provider_clo.Cloud.Servers.Find.{Finds, find_server_by_name_or_meta-Finds}
use cluster_api_provider_clo.Cloud.Servers.Store.{without_drive, is_unused}
use cluster_api_provider_clo.Cloud.Servers.Remove.{SaysMissing, get_server_missing}
use cluster_api_provider_clo.Cloud.Memory.{
  refusing, client_of, clock, clock-IsTicker, still_clock, failing_http, named_drive, server_one,
  clone_named, drive_sdk, drive_client,
}

run : Unit {0}
unfolding drive_sdk clone_named is_unused without_drive create_server clone_drives clone_drive
    settle_clone create_with create_server_direct send request_of authorization_of clean_up
    delete_drive drive_name decimal build_server server_drives server_drive server_nics insert_all
    cloud_init insert ◌==◌ wait_for_drive_ready wait_loop
run = tt

abbrev disk : Disk
disk = record { uuid = "image"; device = "virtio"; boot_order = 1; size = 1000 }

abbrev spec : ServerSpec
spec = record {
  name = "m1";
  cpu = 2000;
  memory = 2048;
  disks = disk ∷ disk ∷ [];
  nics = [];
  tags = [];
  meta = [];
  bootstrap_data = "";
}

abbrev held : List Drive
held = named_drive "other" ∷ []

-- Two drives are cloned, the creation fails, and both are deleted.
create_server_fails : (create_server still_clock failing_http drive_client spec held).1 ≡ held
unfolding run
create_server_fails = refl

abbrev waiting : Client ℕ
waiting = client_of refusing

-- A drive that can never be read is given up at the first tick after the deadline.
wait_gives_up : (wait_for_drive_ready clock waiting "d1" 12000000000 0).1 ≡ 15000000000
unfolding run
wait_gives_up = refl

wait_for_drive_ready_returns_example : wait_loop clock waiting 61 1 0 300000000000 "d1" 0 ≡ (
  some (wait_for_drive_ready clock waiting "d1" 300000000000 0).0,
  (wait_for_drive_ready clock waiting "d1" 300000000000 0).1,
)
wait_for_drive_ready_returns_example =
    wait_for_drive_ready_returns clock waiting clock-IsTicker 61 "d1" 300000000000 0 (omega arith)

uid_unequal : ("u1" == "") ≡ false
unfolding ◌==◌
uid_unequal = refl

abbrev uid : String
uid = "u1"

uid_set : uid ≢ ""
uid_set = ground (arith, uid_unequal, ==_iff "u1" "")

find_server_by_name_or_meta-Finds_example :
    (found : Option Server) × ((find_server_by_name_or_meta drive_client "m2" "u1" held).0
      ≡ ok found)
    × Finds "m2" "u1" (server_one ∷ []) found
unfolding drive_sdk
find_server_by_name_or_meta-Finds_example =
    find_server_by_name_or_meta-Finds drive_client "m2" "u1" (server_one ∷ []) held uid_set refl

abbrev absent : ApiError
absent = record { status_code = some 404; message = "no such server" }

abbrev emptied : Client ℕ
emptied =
    let unused : SdkClient ℕ = refusing in
    client_of
      (record unused { servers = record unused.servers { get = λ uuid w. (err absent, w) } })

missing_answer : (get_server emptied "s1" 0).0 ≡ ok none
unfolding get_server classify
missing_answer = refl

get_server_missing_example :
    (e : ApiError) × ((emptied.sdk.servers.get "s1" 0).0 ≡ err e)
    × (has_status 403 e ≡ false)
    × SaysMissing emptied e
get_server_missing_example = get_server_missing emptied "s1" 0 missing_answer
