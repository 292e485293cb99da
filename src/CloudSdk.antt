-- ===== src/CloudSdk.antt =====
-- The part of github.com/cloudsigma/cloudsigma-sdk-go that the provider uses: the fields it reads
-- and the calls it makes. The service behind the calls is a parameter, with a state `W` of its own.
use cluster_api_provider_clo.Prelude.{ℕ, String, Option, List, [], Action}
use cluster_api_provider_clo.Prelude.Dict.{Dict}

-- The error of a call, with the status code of the response where the SDK returned one.
pub record ApiError : Type 0 where
  pub status_code : Option ℕ
  pub message : String

pub record Drive : Type 0 where
  pub uuid : String
  pub name : String
  pub size : ℕ
  pub status : String
  pub media : String
  pub storage_type : String
  pub mounted_on : List String

-- `&cloudsigma.Drive{UUID: uuid}`
abbrev pub drive_of_uuid : String → Drive
drive_of_uuid uuid = record {
  uuid = uuid;
  name = "";
  size = 0;
  status = "";
  media = "";
  storage_type = "";
  mounted_on = [];
}

pub record ServerDrive : Type 0 where
  pub boot_order : ℕ
  pub dev_channel : String
  pub device : String
  pub drive : Option Drive

-- A NIC with the UUID of its VLAN and that of its configured IP.
pub record ServerNic : Type 0 where
  pub vlan : Option String
  pub ip : Option String

-- `runtime_ips` are the UUIDs of the IPv4 addresses of `Runtime.RuntimeNICs`.
pub record Server : Type 0 where
  pub uuid : String
  pub name : String
  pub status : String
  pub drives : List ServerDrive
  pub nics : List ServerNic
  pub meta : Dict String
  pub runtime_ips : List String

-- An IP, with the UUID of its server if it has one.
pub record Ip : Type 0 where
  pub uuid : String
  pub server : Option String

pub record Vlan : Type 0 where
  pub uuid : String

pub record Tag : Type 0 where
  pub uuid : String
  pub name : String
  pub resources : List String

pub record DrivesApi (W : Type 0) : Type 0 where
  pub get : String → Action W ApiError Drive
  pub list : Action W ApiError (List Drive)
  pub create : List Drive → Action W ApiError (List Drive)
  pub clone : String → Drive → Action W ApiError Drive
  pub resize : String → Drive → Action W ApiError Drive
  pub delete : String → Action W ApiError (Unit {0})

pub record ServersApi (W : Type 0) : Type 0 where
  pub get : String → Action W ApiError Server
  pub list : Action W ApiError (List Server)
  pub update : String → Server → Action W ApiError Server
  pub start : String → Action W ApiError (Unit {0})
  pub stop : String → Action W ApiError (Unit {0})
  pub delete : String → Action W ApiError (Unit {0})

pub record TagsApi (W : Type 0) : Type 0 where
  pub list : Action W ApiError (List Tag)
  pub update : String → Tag → Action W ApiError Tag
  pub create : List Tag → Action W ApiError (List Tag)

-- `get` may answer with a nil IP and no error.
pub record IpsApi (W : Type 0) : Type 0 where
  pub list : Action W ApiError (List Ip)
  pub get : String → Action W ApiError (Option Ip)

pub record VlansApi (W : Type 0) : Type 0 where
  pub get : String → Action W ApiError Vlan
  pub list : Action W ApiError (List Vlan)

pub record SdkClient (W : Type 0) : Type 0 where
  pub drives : DrivesApi W
  pub servers : ServersApi W
  pub tags : TagsApi W
  pub ips : IpsApi W
  pub vlans : VlansApi W
  pub get_profile : Action W ApiError (Unit {0})
