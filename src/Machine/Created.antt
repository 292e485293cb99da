-- ===== src/Machine/Created.antt =====
-- A creation adds at most one server that carries the machine's UID, and none that carries another.
use cluster_api_provider_clo.Prelude.{
  ℕ, ◌+◌, ◌≡◌, ◌⊎◌, inl, inr, refl, subst, ◌∙◌, String, ◌<>◌, some, List, [], ◌∷◌, ◌++◌, ◌==◌,
  ==_iff, Result, ok, err, arith, Result-cases,
}
use cluster_api_provider_clo.Prelude.Dict.{
  lookup, insert, lookup-insert, NodupKeys, insert-NodupKeys,
}
use cluster_api_provider_clo.GoError.{Error}
use cluster_api_provider_clo.Cloud.Types.{Client, Timer, HttpApi, create_request}
use cluster_api_provider_clo.Cloud.Drives.{clone_drive, delete_drive}
use cluster_api_provider_clo.Cloud.Drives.Frame.{clone_drive_keeps}
use cluster_api_provider_clo.Cloud.Custom.{endpoint_of, request_of, create_server_direct}
use cluster_api_provider_clo.Cloud.Custom.Frame.{create_server_direct_state}
use cluster_api_provider_clo.Cloud.Servers.Build.{Disk, insert_all, build_server}
use cluster_api_provider_clo.Cloud.Servers.Meta.{insert_all-NodupKeys, build_server_meta}
use cluster_api_provider_clo.Cloud.Servers.Create.{
  clean_up, drive_name, clone_drives, create_with, after_cloning, create_server,
}
use cluster_api_provider_clo.Machine.Types.{Machine, MachineApi}
use cluster_api_provider_clo.Machine.Steps.{value_of, server_meta, server_spec}
use cluster_api_provider_clo.Machine.Store.{IsCounting, carries}

server_meta-NodupKeys : (m : Machine) → NodupKeys (server_meta m)
unfolding server_meta
server_meta-NodupKeys m =
    insert-NodupKeys _ _ _
      (insert-NodupKeys _ _ _ (insert-NodupKeys _ _ _ (insert_all-NodupKeys m.meta [] tt)))

server_meta_uid : (m : Machine) → lookup "machine-uid" (server_meta m) ≡ some m.uid
unfolding server_meta ◌==◌
server_meta_uid m =
    let copied = insert_all m.meta [] in
    let own = insert "machine-uid" m.uid copied in
    let cluster = value_of "cluster.x-k8s.io/cluster-name" m.labels in
    let pool = value_of "cluster.x-k8s.io/deployment-name" m.labels in
    lookup-insert "pool" "machine-uid" pool (insert "cluster" cluster own)
    ∙ lookup-insert "cluster" "machine-uid" cluster own
    ∙ lookup-insert "machine-uid" "machine-uid" m.uid copied

-- Whatever metadata the machine has and whatever its bootstrap data is, the document that is sent
-- to create its server carries the machine's UID.
pub build_server-machine_uid :
    (m : Machine) (bootstrap_data : String) (cloned : List String)
    → lookup "machine-uid" (build_server (server_spec m bootstrap_data) cloned).meta ≡ some m.uid
unfolding server_spec
build_server-machine_uid m bootstrap_data cloned =
    build_server_meta (server_spec m bootstrap_data) cloned "machine-uid" m.uid
      (server_meta-NodupKeys m) (server_meta_uid m)

module _ {W : Type 0} (kube : MachineApi W) (timer : Timer W) (http : HttpApi W) (c : Client W)
    (count : String → W → ℕ) (lawful : IsCounting kube timer http c count) (uid : String) where
  clean_up_counts :
      (cloned : List String) (w : W) → count uid (clean_up timer http c cloned w) ≡ count uid w
  unfolding clean_up delete_drive
  clean_up_counts [] w = refl
  clean_up_counts (uuid ∷ uuids) w = ground (
    arith,
    clean_up_counts uuids (c.sdk.drives.delete uuid w).1,
    lawful.drive_delete_keeps uuid uid w,
  )

  clone_counts :
      (source name : String) (size : ℕ) (w : W)
      → count uid (clone_drive timer c source name size w).1 ≡ count uid w
  clone_counts =
      clone_drive_keeps timer c (count uid) (λ started n. lawful.tick_keeps started n uid)
        (λ uuid. lawful.drive_get_keeps uuid uid)
        (λ source body. lawful.clone_keeps source body uid)

  clone_drives_counts :
      (name : String) (i : ℕ) (disks : List Disk) (cloned : List String) (w : W)
      → count uid (clone_drives timer http c name i disks cloned w).1 ≡ count uid w
  unfolding clone_drives
  clone_drives_counts name i [] cloned w = refl
  clone_drives_counts name i (disk ∷ disks) cloned w =
      let called = clone_drive timer c disk.uuid (drive_name name i) disk.size w in
      elim (Result-cases called.0) [
        | inr (e, failed) ↦ ground (
          arith,
          failed,
          clone_counts disk.uuid (drive_name name i) disk.size w,
          clean_up_counts cloned called.1,
        )
        | inl (drive, done) ↦ ground (
          arith,
          done,
          clone_counts disk.uuid (drive_name name i) disk.size w,
          clone_drives_counts name (i + 1) disks (cloned ++ (drive.uuid ∷ [])) called.1,
        )
      ]

  -- At most one server more, and only for the machine's own UID.
  abbrev pub Adds : Machine → ℕ → ℕ → Type 0
  Adds m before after = (after ≡ before) ⊎ ((after ≡ 1 + before) × (m.uid ≡ uid))

  direct_counts :
      (m : Machine) (bootstrap_data : String) (cloned : List String) (w : W)
      → Adds m (count uid w) (
          count uid
            (create_server_direct http c (build_server (server_spec m bootstrap_data) cloned) w).1)
  unfolding carries request_of
  direct_counts m bootstrap_data cloned w =
      let server = build_server (server_spec m bootstrap_data) cloned in
      let request =
        request_of c "POST" (endpoint_of c <> "/servers/") (create_request (server ∷ [])) in
      ground (
        arith,
        create_server_direct_state http c server w,
        lawful.create_counts request server uid w refl,
        build_server-machine_uid m bootstrap_data cloned,
        ==_iff m.uid uid,
      )

  create_with_counts :
      (m : Machine) (bootstrap_data : String) (cloned : List String) (w : W)
      → Adds m
          (count uid w)
          (count uid (create_with timer http c (server_spec m bootstrap_data) cloned w).1)
  unfolding create_with
  create_with_counts m bootstrap_data cloned w =
      let called =
        create_server_direct http c (build_server (server_spec m bootstrap_data) cloned) w in
      ground (arith, direct_counts m bootstrap_data cloned w, clean_up_counts cloned called.1)

  after_cloning_counts :
      (m : Machine) (bootstrap_data : String) (before : ℕ) (called : Result Error (List String) × W)
      → count uid called.1 ≡ before
      → Adds m before
          (count uid (after_cloning timer http c (server_spec m bootstrap_data) called).1)
  after_cloning_counts m bootstrap_data before (err e, w) same = inl same
  after_cloning_counts m bootstrap_data before (ok cloned, w) same =
      subst
        (λ n.
          Adds m n (count uid (create_with timer http c (server_spec m bootstrap_data) cloned w).1))
        same (create_with_counts m bootstrap_data cloned w)

  pub create_server_counts :
      (m : Machine) (bootstrap_data : String) (w : W)
      → Adds m
          (count uid w)
          (count uid (create_server timer http c (server_spec m bootstrap_data) w).1)
  unfolding create_server
  create_server_counts m bootstrap_data w =
      let spec = server_spec m bootstrap_data in
      after_cloning_counts m bootstrap_data (count uid w)
        (clone_drives timer http c spec.name 0 spec.disks [] w)
        (clone_drives_counts spec.name 0 spec.disks [] w)
