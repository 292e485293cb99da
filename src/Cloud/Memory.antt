-- ===== src/Cloud/Memory.antt =====
-- Services in memory that keep the laws: one of drives, and one that refuses all calls, of which
-- others take what they do not need.
use cluster_api_provider_clo.Prelude.{
  ℕ, ◌+◌, ◌*◌, refl, String, false, some, List, [], ◌∷◌, ◌++◌, if◌then◌else◌, Action, ok, err,
  arith,
}
use cluster_api_provider_clo.CloudSdk.{ApiError, Drive, drive_of_uuid, Server, SdkClient}
use cluster_api_provider_clo.Cloud.Types.{Client, Timer, HttpApi, ticker_interval, IsTicker}
use cluster_api_provider_clo.Cloud.Servers.Store.{IsLawful, Clones, without_drive, is_unused}
use cluster_api_provider_clo.Cloud.Servers.Remove.{KeepsDrives}

abbrev pub refused : ApiError
refused = record { status_code = some 500; message = "internal error" }

abbrev pub refuse : {W A : Type 0} → Action W ApiError A
refuse w = (err refused, w)

abbrev pub refusing : {W : Type 0} → SdkClient W
refusing = record {
  drives = record {
    get = λ uuid. refuse;
    list = refuse;
    create = λ bodies. refuse;
    clone = λ uuid body. refuse;
    resize = λ uuid body. refuse;
    delete = λ uuid. refuse;
  };
  servers = record {
    get = λ uuid. refuse;
    list = refuse;
    update = λ uuid body. refuse;
    start = λ uuid. refuse;
    stop = λ uuid. refuse;
    delete = λ uuid. refuse;
  };
  tags = record { list = refuse; update = λ uuid body. refuse; create = λ bodies. refuse };
  ips = record { list = refuse; get = λ uuid. refuse };
  vlans = record { get = λ uuid. refuse; list = refuse };
  get_profile = refuse;
}

-- A client with a password.
abbrev pub client_of : {W : Type 0} → SdkClient W → Client W
client_of sdk = record {
  sdk = sdk;
  region = "zrh";
  username = "admin";
  password = "secret";
  api_endpoint = "https://zrh.cloudsigma.com/api/2.0";
  impersonated_user = "";
  use_impersonation = false;
  access_token = "";
}

-- A clock that only the ticks move, and each of them to its time.
abbrev pub clock : Timer ℕ
clock = record { now = λ w. w; await_tick = λ started n w. (ok tt, started + n * ticker_interval) }

pub clock-IsTicker : IsTicker clock
clock-IsTicker started n w = omega arith

abbrev pub still_clock : {W : Type 0} → Timer W
still_clock = record { now = λ w. 0; await_tick = λ started n w. (ok tt, w) }

-- An HTTP service of which every answer is that of a server in trouble.
abbrev pub failing_http : {W : Type 0} → HttpApi W
failing_http = record {
  new_request = λ request. ok tt;
  do_request = λ request w. (ok (record { status = 503; body = ok "try again" }), w);
  decode_servers = λ text. err "no servers";
}

abbrev pub named_drive : String → Drive
named_drive name = record (drive_of_uuid name) { name = name; status = "unmounted" }

-- A server that has the drive "d1".
abbrev pub server_one : Server
server_one = record {
  uuid = "s1";
  name = "m1";
  status = "running";
  drives =
      record {
        boot_order = 1;
        dev_channel = "0:1";
        device = "virtio";
        drive = some (named_drive "d1");
      }
      ∷ [];
  nics = [];
  meta = ("machine-uid", "u1") ∷ [];
  runtime_ips = [];
}

-- A clone has its name for UUID, and is refused where that is taken.
unfoldable pub clone_named : Drive → Action (List Drive) ApiError Drive
unfolding is_unused
clone_named body drives =
    if is_unused body.name drives
    then (ok (named_drive body.name), drives ++ (named_drive body.name ∷ []))
    else (err refused, drives)

unfoldable pub drive_sdk : SdkClient (List Drive)
unfolding clone_named without_drive
drive_sdk =
    let unused : SdkClient (List Drive) = refusing in
    record unused {
      drives = record unused.drives {
        get = λ uuid drives. (ok (named_drive uuid), drives);
        clone = λ source. clone_named;
        delete = λ uuid drives. (ok tt, without_drive uuid drives);
      };
      servers = record unused.servers {
        get = λ uuid drives. (ok server_one, drives);
        list = λ drives. (ok (server_one ∷ []), drives);
        stop = λ uuid drives. (ok tt, drives);
        delete = λ uuid drives. (ok tt, drives);
      };
    }

abbrev pub drive_client : Client (List Drive)
drive_client = client_of drive_sdk

clone_named-Clones :
    (body : Drive) (drives : List Drive)
    → Clones drives (clone_named body drives).1 (clone_named body drives).0
unfolding clone_named
clone_named-Clones body drives = ground arith

pub drive_client-IsLawful : IsLawful still_clock failing_http drive_client (λ drives. drives)
unfolding drive_sdk
drive_client-IsLawful = record {
  clone_adds = λ source body drives. clone_named-Clones body drives;
  get_answers = λ uuid drives. refl;
  get_keeps = λ uuid drives. refl;
  delete_removes = λ uuid drives. refl;
  tick_keeps = λ started n drives. refl;
  request_keeps = λ request drives. refl;
}

pub drive_client-KeepsDrives : KeepsDrives drive_client (λ drives. drives)
unfolding drive_sdk
drive_client-KeepsDrives = record {
  get_keeps = λ uuid drives. refl;
  stop_keeps = λ uuid drives. refl;
  delete_keeps = λ uuid drives. refl;
  delete_removes = λ uuid drives. refl;
}
