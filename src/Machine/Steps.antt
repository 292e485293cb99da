-- ===== src/Machine/Steps.antt =====
-- controllers/cloudsigmamachine_controller.go: the updates of the machine, and the data for its
-- server.
use cluster_api_provider_clo.Prelude.{
  String, ◌<>◌, Option, some, none, List, [], ◌∷◌, ◌++◌, ◌==◌, contains, if◌then◌else◌, Action,
  Result, ok, err, ret, fail, map_err, attempt, ◌>>=◌, ◌>>◌,
}
use cluster_api_provider_clo.Prelude.Dict.{Dict, lookup, insert}
use cluster_api_provider_clo.CloudSdk.{Server}
use cluster_api_provider_clo.GoError.{Error, plain, wrap}
use cluster_api_provider_clo.Cloud.Servers.Build.{ServerSpec, insert_all}
use cluster_api_provider_clo.Machine.Types.{
  Machine, OwnerMachine, MachineApi, Next, requeue, proceed,
}

abbrev pub machine_finalizer : String
machine_finalizer = "cloudsigmamachine.infrastructure.cluster.x-k8s.io"

-- `fmt.Sprintf("cloudsigma://%s", uuid)`
abbrev pub provider_id_of : String → String
provider_id_of uuid = "cloudsigma://" <> uuid

-- `m[k]` of a map that may lack the key.
abbrev pub value_of : String → Dict String → String
value_of k m = elim (lookup k m) [ none ↦ "" | some v ↦ v ]

-- `controllerutil.RemoveFinalizer`
unfoldable pub remove_finalizer : String → List String → List String
remove_finalizer name [] = []
remove_finalizer name (first ∷ rest) =
    let others = remove_finalizer name rest in if first == name then others else first ∷ others

-- "Create server with machine-uid in metadata for identification"
unfoldable pub server_meta : Machine → Dict String
unfolding lookup insert insert_all
server_meta m = insert "pool" (value_of "cluster.x-k8s.io/deployment-name" m.labels) (
    insert "cluster" (value_of "cluster.x-k8s.io/cluster-name" m.labels)
      (insert "machine-uid" m.uid (insert_all m.meta [])))

unfoldable pub server_spec : Machine → String → ServerSpec
unfolding server_meta
server_spec m bootstrap_data = record {
  name = m.name;
  cpu = m.cpu;
  memory = m.memory;
  disks = m.disks;
  nics = m.nics;
  tags = m.tags;
  meta = server_meta m;
  bootstrap_data = bootstrap_data;
}

abbrev pub with_instance : Server → Machine → Machine
with_instance server m = record m { instance_id = server.uuid; instance_state = server.status }

abbrev pub without_instance : Machine → Machine
without_instance m = record m { instance_id = ""; instance_state = "" }

abbrev pub with_provider_id : Server → Machine → Machine
with_provider_id server m = record m { provider_id = some (provider_id_of server.uuid) }

module _ {W : Type 0} where
  abbrev pub read : Action (Machine × W) Error Machine
  read (m, w) = (ok m, (m, w))

  abbrev pub modify : (Machine → Machine) → Action (Machine × W) Error (Unit {0})
  modify f (m, w) = (ok tt, (f m, w))

  module _ (kube : MachineApi W) where
    abbrev pub keep_stored :
        Machine → Result String Machine × W → Result Error (Unit {0}) × (Machine × W)
    keep_stored m (ok stored, w) = (ok tt, (stored, w))
    keep_stored m (err e, w) = (err (plain e), (m, w))

    -- `r.Update(ctx, cloudSigmaMachine)` and `r.Status().Update(ctx, cloudSigmaMachine)`
    unfoldable pub write : Action (Machine × W) Error (Unit {0})
    write (m, w) = keep_stored m (kube.update m w)

    unfoldable pub write_status : Action (Machine × W) Error (Unit {0})
    write_status (m, w) = keep_stored m (kube.update_status m w)

    -- "Add finalizer if not present"
    unfoldable pub ensure_finalizer : Action (Machine × W) Error (Unit {0})
    unfolding contains write
    ensure_finalizer (m, w) =
        if contains m.finalizers machine_finalizer
        then (ok tt, (m, w))
        else map_err (wrap "failed to add finalizer") write
            (record m { finalizers = m.finalizers ++ (machine_finalizer ∷ []) }, w)

    -- The instance is cleared; an error of the update is logged.
    unfoldable pub clear_instance : Action (Machine × W) Error (Unit {0})
    unfolding write_status
    clear_instance = do modify without_instance; attempt write_status; ret tt

    -- A server that was found becomes the machine's own.
    unfoldable pub adopt : Server → Action (Machine × W) Error (Next (Option Server))
    unfolding write write_status
    adopt server = do
      modify (with_instance server)
      recorded ← attempt write_status
      elim recorded [
        | err _ ↦ ret (requeue 5)
        | ok _ ↦ modify (with_provider_id server) >> attempt write >>= (λ written. elim written [
          | err _ ↦ ret (requeue 5)
          | ok _ ↦ ret (proceed (some server))
        ])
      ]

    -- `getBootstrapData`
    unfoldable pub get_bootstrap_data : OwnerMachine → Action W Error String
    unfolding lookup
    get_bootstrap_data owner = elim owner.data_secret_name [
      | none ↦ fail (plain "bootstrap data secret is not set")
      | some name ↦
          map_err (λ e. wrap "failed to get bootstrap data secret" (plain e))
            (kube.get_secret owner.namespace name)
          >>= (λ secret. elim (lookup "value" secret) [
            | none ↦ fail (plain "bootstrap data secret does not contain 'value' key")
            | some value ↦ ret (kube.encode_base64 value)
          ])
    ]
