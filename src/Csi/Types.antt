-- ===== src/Csi/Types.antt =====
-- The CSI messages that the controller reads and writes, and the driver's own state: fields of
-- github.com/container-storage-interface/spec as far as csi/driver uses them, and csi/driver/driver.go.
use cluster_api_provider_clo.Prelude.{
  ℕ, String, Bool, Option, none, some, List, [], ◌∷◌, ℤ, ◌==◌, ◌&&◌, not, if◌then◌else◌,
}
use cluster_api_provider_clo.Prelude.Dict.{Dict}
use cluster_api_provider_clo.CloudSdk.{SdkClient}

-- The gRPC status codes in use. The texts of the messages are left out.
pub data Code : Type 0 where
  invalid_argument internal out_of_range failed_precondition not_found unimplemented : Code

-- What a handler ends with in place of a response: an error status, or a nil dereference.
pub data Failure : Type 0 where
  status : Code → Failure
  panic : Failure

pub data AccessType : Type 0 where
  block mount : AccessType

-- `access_mode` is the number of the enum; it is 0 where the message has none.
pub record VolumeCapability : Type 0 where
  pub access_type : Option AccessType
  pub access_mode : ℕ

pub record CapacityRange : Type 0 where
  pub required_bytes : ℤ
  pub limit_bytes : ℤ

pub record CreateVolumeRequest : Type 0 where
  pub name : String
  pub volume_capabilities : List VolumeCapability
  pub capacity_range : Option CapacityRange
  pub parameters : Dict String

pub record Volume : Type 0 where
  pub volume_id : String
  pub capacity_bytes : ℕ
  pub volume_context : Dict String
  pub topology : Dict String

pub record PublishContext : Type 0 where
  pub channel : String
  pub volume_id : String

pub record ExpandResponse : Type 0 where
  pub capacity_bytes : ℕ
  pub node_expansion_required : Bool

-- `csi.VolumeCapability_AccessMode_SINGLE_NODE_WRITER` and `..._SINGLE_NODE_READER_ONLY`
abbrev pub single_node_writer : ℕ
single_node_writer = 1

abbrev pub single_node_reader_only : ℕ
single_node_reader_only = 2

pub data ControllerCapability : Type 0 where
  create_delete_volume publish_unpublish_volume expand_volume create_delete_snapshot :
      ControllerCapability

-- `Config`, as far as `NewDriver` decides by it.
pub record Config : Type 0 where
  pub region : String
  pub username : String
  pub password : String
  pub token : String
  pub cluster_name : String

-- `Driver`. The mutexes are left out: a handler runs as one step.
pub record Driver (W : Type 0) : Type 0 where
  pub region : String
  pub cluster_name : String
  pub cloud_client : Option (SdkClient W)
  pub controller_caps : List ControllerCapability
  pub volume_caps : List ℕ

abbrev pub or_zurich : String → String
or_zurich region = if region == "" then "zrh" else region

-- `NewDriver`. The SDK makes a client from a token or from a name and a password, and a location.
unfoldable pub new_driver :
    {W : Type 0}
    → (token_client : String → String → SdkClient W)
    → (password_client : String → String → String → SdkClient W) → Config
    → Driver W
new_driver token_client password_client cfg = record {
  region = cfg.region;
  cluster_name = cfg.cluster_name;
  cloud_client =
      if not (cfg.token == "")
      then some (token_client cfg.token (or_zurich cfg.region))
      else if not (cfg.username == "") && not (cfg.password == "")
      then some (password_client cfg.username cfg.password (or_zurich cfg.region))
      else none;
  controller_caps =
      create_delete_volume ∷ publish_unpublish_volume ∷ expand_volume ∷ create_delete_snapshot ∷ [];
  volume_caps = single_node_writer ∷ single_node_reader_only ∷ [];
}
