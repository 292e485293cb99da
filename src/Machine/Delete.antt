-- ===== src/Machine/Delete.antt =====
-- controllers/cloudsigmamachine_controller.go: `reconcileDelete`.
pub mod Finalizer
pub mod Progress
use cluster_api_provider_clo.Prelude.{
  ℕ, zero, suc, String, Bool, true, false, ◌||◌, Option, some, none, List, [], ◌∷◌, ◌==◌,
  contains_text, if◌then◌else◌, Action, Result, ok, err, ret, fail, map_err, outside, ◌>>=◌, ◌>>◌,
}
use cluster_api_provider_clo.CloudSdk.{Server}
use cluster_api_provider_clo.GoError.{Error, wrap, error_text, is_permission_denied}
use cluster_api_provider_clo.Tags.{untag_server}
use cluster_api_provider_clo.Cloud.Types.{Client}
use cluster_api_provider_clo.Cloud.Servers.{get_server, stop_server, delete_server}
use cluster_api_provider_clo.Machine.Types.{Machine, MachineApi}
use cluster_api_provider_clo.Machine.Steps.{
  machine_finalizer, remove_finalizer, read, modify, write,
}

-- The texts by which an error of the deletion counts as success.
abbrev is_going : String → Bool
is_going text =
    contains_text text "in state 'deleting'"
    || (contains_text text "in state 'stopping'"
        || (contains_text text "not found" || contains_text text "404"))

-- `sleep` is `time.Sleep(10 * time.Second)`.
module _ {W : Type 0} (kube : MachineApi W) (sleep : W → W) (c : Client W) where
  -- "Wait for server to stop": the server as it was read last.
  unfoldable pub await_stopped : ℕ → String → Server → Action W Error (Option Server)
  await_stopped zero id last w = (ok (some last), w)
  await_stopped (suc rounds) id last w =
      let (found, w') = get_server c id w in
      elim found [
        | err e ↦ (err (wrap "failed to get server status" e), w')
        | ok answer ↦ elim answer [
          | none ↦ (ok none, w')
          | some server ↦ elim (server.status == "stopped") [
            | true ↦ (ok (some server), w')
            | false ↦ await_stopped rounds id server (sleep w')
          ]
        ]
      ]

  -- "Check if server is running and stop it first"
  unfoldable pub stop_first : String → Server → Action W Error (Unit {0})
  stop_first id server =
      if server.status == "running" || server.status == "starting"
      then map_err (wrap "failed to stop server") (stop_server c id)
      else ret tt

  -- The judgement of the error of the deletion.
  abbrev pub after_deletion : Result Error (Unit {0}) × W → Result Error (Unit {0}) × W
  after_deletion (ok _, w) = (ok tt, w)
  after_deletion (err e, w) =
      if is_going (error_text e) then (ok tt, w) else (err (wrap "failed to delete server" e), w)

  -- "Delete the server if it still exists"
  unfoldable pub delete_left : String → Option Server → Action W Error (Unit {0})
  delete_left id none w = (ok tt, w)
  delete_left id (some server) w = after_deletion (delete_server c id w)

  unfoldable pub shut_down : String → Server → Action W Error (Unit {0})
  unfolding stop_first await_stopped delete_left
  shut_down id server = do
    stop_first id server
    left ← await_stopped 12 id server
    delete_left id left

  -- "Remove finalizer"
  unfoldable pub drop_finalizer : String → Action (Machine × W) Error (Unit {0})
  unfolding write remove_finalizer
  drop_finalizer context =
      modify (λ m. record m { finalizers = remove_finalizer machine_finalizer m.finalizers })
      >> map_err (wrap context) (write kube)

  -- What `reconcileDelete` does with the answer for the server.
  unfoldable pub after_check : Result Error (Option Server) → Action (Machine × W) Error (Unit {0})
  unfolding drop_finalizer
  after_check (err e) =
      if is_permission_denied e
      then drop_finalizer "failed to remove finalizer after permission denied"
      else fail (wrap "failed to get server for deletion" e)
  after_check (ok none) = drop_finalizer "failed to remove finalizer"
  after_check (ok (some server)) =
      read
      >>= (λ m. outside (shut_down m.instance_id server))
      >> drop_finalizer "failed to remove finalizer"

  -- `reconcileDelete`: it never asks to be called again.
  unfoldable pub reconcile_delete : Action (Machine × W) Error (Unit {0})
  reconcile_delete (m, w) =
      let (found, w') =
        get_server c m.instance_id (untag_server (some c.sdk.tags) m.instance_id w) in
      if m.instance_id == ""
      then drop_finalizer "failed to remove finalizer" (m, w)
      else after_check found (m, w')
