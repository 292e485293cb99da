-- ===== src/Machine/Normal.antt =====
-- controllers/cloudsigmamachine_controller.go: `reconcileNormal`.
use cluster_api_provider_clo.Prelude.{
  ℕ, String, ◌<>◌, Bool, true, false, Option, some, none, List, [], ◌∷◌, ◌==◌, if◌then◌else◌,
  Action, Result, ok, err, ret, fail, map_err, attempt, outside, ◌>>=◌, ◌>>◌,
}
use cluster_api_provider_clo.CloudSdk.{Server}
use cluster_api_provider_clo.GoError.{Error, plain, wrap, error_text, is_permission_denied}
use cluster_api_provider_clo.Tags.{tag_server}
use cluster_api_provider_clo.Cloud.Types.{Client, Timer, HttpApi}
use cluster_api_provider_clo.Cloud.Servers.{
  get_server, start_server, find_server_by_name_or_meta, get_server_addresses_with_client,
}
use cluster_api_provider_clo.Cloud.Servers.Create.{create_server}
use cluster_api_provider_clo.Machine.Types.{
  is_true, is_false, Machine, OwnerMachine, MachineApi, Next, requeue, proceed,
}
use cluster_api_provider_clo.Machine.Steps.{
  provider_id_of, value_of, server_spec, with_instance, with_provider_id, modify, write,
  write_status, ensure_finalizer, clear_instance, adopt, get_bootstrap_data,
}

abbrev create_failed : Error → Machine → Machine
create_failed e m = record m { server_ready = some (is_false "ServerCreateFailed" (error_text e)) }

abbrev pub running : Machine → Machine
running m = record m { server_ready = some is_true; ready = true }

abbrev pub not_running : Server → Machine → Machine
not_running server m = record m {
  server_ready = some (is_false "ServerNotRunning" ("Server status: " <> server.status));
  ready = false;
}

abbrev pub set_addresses : List String → Machine → Machine
set_addresses [] m = m
set_addresses (first ∷ more) m = record m { addresses = first ∷ more }

module _ {W : Type 0} (kube : MachineApi W) (timer : Timer W) (http : HttpApi W)
    (c : Client W) where
  -- "Try to find a server by name/metadata that we CAN access"
  unfoldable pub after_search :
      Result Error (Option Server) → Action (Machine × W) Error (Next (Option Server))
  after_search (ok (some server)) = adopt kube server
  after_search (ok none) = clear_instance kube >> ret (requeue 5)
  after_search (err e) = clear_instance kube >> ret (requeue 5)

  unfoldable pub find_accessible : Action (Machine × W) Error (Next (Option Server))
  find_accessible (m, w) =
      let (found, w') = find_server_by_name_or_meta c m.name m.uid w in after_search found (m, w')

  -- The check of the recorded instance, behind its call.
  unfoldable pub checked :
      Result Error (Option Server) → Action (Machine × W) Error (Next (Option Server))
  checked (ok (some server)) = ret (proceed (some server))
  checked (ok none) = clear_instance kube >> ret (proceed none)
  checked (err e) =
      if is_permission_denied e then find_accessible else fail (wrap "failed to get server" e)

  -- "Check if server already exists (idempotency check)"
  unfoldable pub check_existing : Action (Machine × W) Error (Next (Option Server))
  check_existing (m, w) =
      if m.instance_id == ""
      then (ok (proceed none), (m, w))
      else let (found, w') = get_server c m.instance_id w in checked found (m, w')

  unfoldable pub start_if_needed : Server → Action (Machine × W) Error (Unit {0})
  start_if_needed server =
      if server.status == "running"
      then ret tt
      else map_err (wrap "failed to start server") (outside (start_server c server.uuid))

  -- "Tag the server in CloudSigma for tracking"
  unfoldable pub tag_created : Server → Action (Machine × W) Error (Unit {0})
  tag_created server (m, w) =
      let tagged =
        tag_server (some c.sdk.tags) server.uuid (value_of "cluster.x-k8s.io/cluster-name" m.labels)
          (value_of "cluster.x-k8s.io/deployment-name" m.labels) w in
      (ok tt, (m, tagged))

  -- What follows a creation.
  unfoldable pub record_created : Server → Action (Machine × W) Error (Next (Option Server))
  record_created server = do
    tag_created server
    modify (with_instance server)
    recorded ← attempt (write_status kube)
    elim recorded [
      | err _ ↦ ret (requeue 10)
      | ok _ ↦ modify (with_provider_id server) >> attempt (write kube) >>= (λ written.
          elim written [
            | err _ ↦ ret (requeue 5)
            | ok _ ↦ start_if_needed server >> ret (requeue 10)
          ])
    ]

  unfoldable pub after_creation :
      Result Error Server → Action (Machine × W) Error (Next (Option Server))
  after_creation (err e) = modify (create_failed e) >> fail (wrap "failed to create server" e)
  after_creation (ok server) = record_created server

  -- "Get bootstrap data" and the creation.
  unfoldable pub create : OwnerMachine → Action (Machine × W) Error (Next (Option Server))
  create owner (m, w) =
      let (bootstrap, w') = get_bootstrap_data kube owner w in
      elim bootstrap [
        | err _ ↦ (ok (requeue 10), (m, w'))
        | ok bootstrap_data ↦
            let (created, w'') = create_server timer http c (server_spec m bootstrap_data) w' in
            after_creation created (m, w'')
      ]

  unfoldable pub adopt_or_create :
      OwnerMachine
      → Result Error (Option Server)
      → Action (Machine × W) Error (Next (Option Server))
  adopt_or_create owner (err e) = ret (requeue 10)
  adopt_or_create owner (ok (some server)) = adopt kube server
  adopt_or_create owner (ok none) = create owner

  -- "Create server if it doesn't exist"
  unfoldable pub find_or_create :
      OwnerMachine → Option Server → Action (Machine × W) Error (Next (Option Server))
  find_or_create owner server (m, w) =
      let (found, w') = find_server_by_name_or_meta c m.name m.uid w in
      if m.instance_id == ""
      then adopt_or_create owner found (m, w')
      else (ok (proceed server), (m, w))

  -- "Ensure providerID is set and matches the current instance"
  unfoldable pub ensure_provider_id : Server → Action (Machine × W) Error (Next (Unit {0}))
  ensure_provider_id server (m, w) =
      let corrected : Action (Machine × W) Error (Next (Unit {0})) = (do
        modify (with_provider_id server)
        written ← attempt (write kube)
        elim written [ err _ ↦ ret (requeue 5) | ok _ ↦ ret (proceed tt) ]) in
      elim m.provider_id [
        | none ↦ corrected (m, w)
        | some id ↦
            if id == provider_id_of server.uuid then (ok (proceed tt), (m, w)) else corrected (m, w)
      ]

  abbrev is_empty : List String → Bool
  is_empty [] = true
  is_empty (first ∷ more) = false

  -- "Ensure server is running" and the readiness.
  unfoldable pub settle : Server → List String → Action (Machine × W) Error ℕ
  settle server addresses =
      if server.status == "stopped"
      then map_err (wrap "failed to start server") (outside (start_server c server.uuid)) >> ret 10
      else if server.status == "running"
      then modify running
        >> attempt (write_status kube)
        >> ret (if is_empty addresses then 5 else 60)
      else modify (not_running server) >> attempt (write_status kube) >> ret 60

  -- "Extract and populate network addresses"; the panic of a nil IP is an error of the reconciler.
  unfoldable pub populate : Server → Action (Machine × W) Error ℕ
  populate server (m, w) =
      let (found, w') = get_server_addresses_with_client c server w in
      elim found [
        | none ↦ (err (plain "invalid memory address or nil pointer dereference"), (m, w'))
        | some addresses ↦
            (attempt (write_status kube) >> settle server addresses) (set_addresses addresses m, w')
      ]

  -- "Server exists, update its state"
  unfoldable pub observe : Server → Action (Machine × W) Error ℕ
  observe server = do
    modify (λ m. record m { instance_state = server.status })
    next ← ensure_provider_id server
    elim next [ requeue n ↦ ret n | proceed _ ↦ populate server ]

  unfoldable pub observe_found : Next (Option Server) → Action (Machine × W) Error ℕ
  observe_found (requeue n) = ret n
  observe_found (proceed none) = ret 60
  observe_found (proceed (some server)) = observe server

  unfoldable pub locate :
      OwnerMachine → Next (Option Server) → Action (Machine × W) Error (Next (Option Server))
  locate owner (requeue n) = ret (requeue n)
  locate owner (proceed server) = find_or_create owner server

  -- `reconcileNormal`: the answer is `RequeueAfter` in seconds.
  unfoldable pub reconcile_normal : OwnerMachine → Action (Machine × W) Error ℕ
  reconcile_normal owner = do
    ensure_finalizer kube
    existing ← check_existing
    found ← locate owner existing
    observe_found found
