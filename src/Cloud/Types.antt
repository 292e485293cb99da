-- ===== src/Cloud/Types.antt =====
-- The client of pkg/cloud/client.go, the documents of pkg/cloud/servers_custom.go, and what both
-- rely on: HTTP, the clock and the ticker.
use cluster_api_provider_clo.Prelude.{ℕ, ◌+◌, ◌*◌, ◌≤◌, String, Bool, Option, List, Action, Result}
use cluster_api_provider_clo.Prelude.Dict.{Dict}
use cluster_api_provider_clo.CloudSdk.{Server, SdkClient}
use cluster_api_provider_clo.Auth.Types.{Response}

abbrev pub second : ℕ
second = 1000000000

-- `Client`, less the pointer to the impersonation client, which its calls get.
pub record Client (W : Type 0) : Type 0 where
  pub sdk : SdkClient W
  pub region : String
  pub username : String
  pub password : String
  pub api_endpoint : String
  pub impersonated_user : String
  pub use_impersonation : Bool
  pub access_token : String

-- `CustomServerDrive`
pub record CustomServerDrive : Type 0 where
  pub boot_order : ℕ
  pub dev_channel : String
  pub device : String
  pub drive : String

-- `CustomIPv4Conf`, with the UUID of a `CustomIPRef`.
pub record CustomIpv4Conf : Type 0 where
  pub conf : String
  pub ip : Option String

-- `CustomServerNIC`
pub record CustomServerNic : Type 0 where
  pub vlan : String
  pub ip_v4_conf : Option CustomIpv4Conf

-- `CustomServer`
pub record CustomServer : Type 0 where
  pub name : String
  pub cpu : ℕ
  pub mem : ℕ
  pub vnc_password : String
  pub drives : List CustomServerDrive
  pub nics : List CustomServerNic
  pub meta : Dict String

-- The body of a request: `CustomServerCreateRequest` or `NICUpdateRequest`. Strings, numbers and
-- maps of them can always be marshalled.
pub data Document : Type 0 where
  create_request : List CustomServer → Document
  nic_update : List CustomServerNic → Document

pub data Authorization : Type 0 where
  bearer : String → Authorization
  basic : String → String → Authorization

pub record HttpRequest : Type 0 where
  pub verb : String
  pub url : String
  pub authorization : Authorization
  pub body : Document

-- The HTTP client; `decode_servers` is the JSON decoder at `objects`.
pub record HttpApi (W : Type 0) : Type 0 where
  pub new_request : HttpRequest → Result String (Unit {0})
  pub do_request : HttpRequest → Action W String Response
  pub decode_servers : String → Result String (List Server)

-- The clock, and the ticker of 5 seconds: `await_tick started n` waits for its n-th tick after
-- `started`, or fails with the error of the context.
pub record Timer (W : Type 0) : Type 0 where
  pub now : W → ℕ
  pub await_tick : ℕ → ℕ → Action W String (Unit {0})

abbrev pub ticker_interval : ℕ
ticker_interval = 5 * second

-- No tick comes early.
abbrev pub IsTicker : {W : Type 0} → Timer W → Type 0
IsTicker timer =
    (started n : ℕ) (w : _)
    → started + n * ticker_interval ≤ timer.now (timer.await_tick started n w).1
