-- ===== src/Machine/Types.antt =====
-- The machine, what it refers to, and the calls of the Kubernetes API.

use cluster_api_provider_clo.Prelude.{ℕ, String, Bool, Option, List, Action}
use cluster_api_provider_clo.Prelude.Dict.{Dict}
use cluster_api_provider_clo.NodeSync.{KubeError}
use cluster_api_provider_clo.Cloud.Servers.Build.{Disk, Nic}

-- The `ServerReady` condition, with reason and message where it does not hold.
pub data Condition : Type 0 where
  is_true : Condition
  is_false : String → String → Condition

-- `CloudSigmaMachine`: metadata, spec and status.
pub record Machine : Type 0 where
  pub name : String
  pub namespace : String
  pub uid : String
  pub labels : Dict String
  pub finalizers : List String
  pub is_deleting : Bool
  pub provider_id : Option String
  pub cpu : ℕ
  pub memory : ℕ
  pub disks : List Disk
  pub nics : List Nic
  pub tags : List String
  pub meta : Dict String
  pub instance_id : String
  pub instance_state : String
  pub addresses : List String
  pub ready : Bool
  pub server_ready : Option Condition

-- `clusterv1.Machine`, as far as `getBootstrapData` reads it.
pub record OwnerMachine : Type 0 where
  pub namespace : String
  pub data_secret_name : Option String

-- `CloudSigmaCluster`, as far as the machine controller reads it; `user_ref` is a namespace and a
-- name.
pub record MachineCluster : Type 0 where
  pub namespace : String
  pub region : String
  pub user_email : String
  pub user_ref : Option (String × String)

-- The object that an update is answered with takes the place of the one in hand.
pub record MachineApi (W : Type 0) : Type 0 where
  pub update : Machine → Action W String Machine
  pub update_status : Machine → Action W String Machine
  pub get_secret : String → String → Action W String (Dict String)
  pub encode_base64 : String → String

-- What a part of `reconcileNormal` comes to: it returns with `RequeueAfter` in seconds, or goes on
-- with the server that it has.
pub data Next {ℓ} (Found : Type ℓ) : Type ℓ where
  requeue : ℕ → Next Found
  proceed : Found → Next Found

-- The fields of `CloudSigmaMachineReconciler` that hold no client.
pub record ReconcilerConfig : Type 0 where
  pub cloud_sigma_username : String
  pub cloud_sigma_password : String
  pub cloud_sigma_region : String
  pub legacy_credentials_enabled : Bool

-- The reads of `Reconcile` and of `getUserEmail`: the machine, its owner, and its cluster, of which
-- the name and whether it or the machine is paused are read.
pub record LookupApi (W : Type 0) : Type 0 where
  pub get_machine : Action W KubeError Machine
  pub get_owner_machine : Machine → Action W String (Option OwnerMachine)
  pub get_cluster : OwnerMachine → Action W String (String × Bool)
  pub get_machine_cluster : String → String → Action W String MachineCluster
