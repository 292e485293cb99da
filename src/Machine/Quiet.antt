-- ===== src/Machine/Quiet.antt =====
-- The steps of `reconcileNormal` that create no server: they leave the counts and the machine's UID
-- alone.
use cluster_api_provider_clo.Prelude.{
  ℕ, ◌≡◌, refl, ◌∙◌, String, Option, some, none, [], ◌∷◌, ◌++◌, Action, Result, ok, err, run_next,
  arith, ◌>>=◌,
}
use cluster_api_provider_clo.CloudSdk.{Server}
use cluster_api_provider_clo.GoError.{Error}
use cluster_api_provider_clo.Tags.{tag_server, server_tags}
use cluster_api_provider_clo.Tags.Frame.{ensure_tags_keeps}
use cluster_api_provider_clo.Cloud.Types.{Client, Timer, HttpApi}
use cluster_api_provider_clo.Cloud.Servers.{get_server, start_server, find_server_by_name_or_meta}
use cluster_api_provider_clo.Machine.Types.{Machine, MachineApi}
use cluster_api_provider_clo.Machine.Steps.{
  machine_finalizer, value_of, keep_stored, with_instance, with_provider_id, write, write_status,
  ensure_finalizer, clear_instance, adopt,
}
use cluster_api_provider_clo.Machine.Normal.{
  after_search, find_accessible, checked, check_existing, start_if_needed, tag_created,
  record_created,
}
use cluster_api_provider_clo.Machine.Store.{IsCounting, SameUid}

module _ {W : Type 0} (kube : MachineApi W) (timer : Timer W) (http : HttpApi W) (c : Client W)
    (count : String → W → ℕ) (lawful : IsCounting kube timer http c count) (uid : String) where
  abbrev pub Same : Machine × W → Machine × W → Type 0
  Same s s' = (count uid s'.1 ≡ count uid s.1) × (s'.0.uid ≡ s.0.uid)

  abbrev pub Quiet : {E A : Type 0} → Action (Machine × W) E A → Type 0
  Quiet call = (s : Machine × W) → Same s (call s).1

  Same-trans : (s s' s'' : Machine × W) → Same s s' → Same s' s'' → Same s s''
  Same-trans s s' s'' h k = (k.0 ∙ h.0, k.1 ∙ h.1)

  run-Same :
      {E A B : Type 0} (f : A → Action (Machine × W) E B) (s : Machine × W)
      (called : Result E A × (Machine × W))
      → Same s called.1
      → ((a : A) → Quiet (f a))
      → Same s (run_next f called).1
  run-Same f s (ok a, s') h k = Same-trans s s' (f a s').1 h (k a s')
  run-Same f s (err e, s') h k = h

  pub bind-Quiet :
      {E A B : Type 0} (call : Action (Machine × W) E A) (f : A → Action (Machine × W) E B)
      → Quiet call
      → ((a : A) → Quiet (f a))
      → Quiet (call >>= f)
  bind-Quiet call f h k s = run-Same f s (call s) (h s) k

  stored-Same :
      (m : Machine) (w : W) (called : Result String Machine × W)
      → SameUid m.uid called.0
      → count uid called.1 ≡ count uid w
      → Same (m, w) (keep_stored kube m called).1
  stored-Same m w (ok stored, w') h k = (k, h)
  stored-Same m w (err e, w') h k = (k, refl)

  pub write-Quiet : Quiet (write kube)
  unfolding write
  write-Quiet (m, w) =
      stored-Same m w (kube.update m w) (lawful.update_uid m w) (lawful.update_keeps m uid w)

  pub write_status-Quiet : Quiet (write_status kube)
  unfolding write_status
  write_status-Quiet (m, w) =
      stored-Same m w (kube.update_status m w) (lawful.update_status_uid m w)
        (lawful.update_status_keeps m uid w)

  pub ensure_finalizer-Quiet : Quiet (ensure_finalizer kube)
  unfolding ensure_finalizer
  ensure_finalizer-Quiet (m, w) =
      ground
        (arith, write-Quiet (record m { finalizers = m.finalizers ++ (machine_finalizer ∷ []) }, w))

  pub clear_instance-Quiet : Quiet (clear_instance kube)
  unfolding clear_instance
  clear_instance-Quiet (m, w) = write_status-Quiet _

  pub adopt-Quiet : (server : Server) → Quiet (adopt kube server)
  unfolding adopt
  adopt-Quiet server (m, w) =
      let recorded = (write_status kube (with_instance server m, w)).1 in
      ground (
        arith,
        write_status-Quiet (with_instance server m, w),
        write-Quiet (with_provider_id server recorded.0, recorded.1),
      )

  pub find-Quiet :
      (name machine_uid : String) (w : W)
      → count uid (find_server_by_name_or_meta c name machine_uid w).1 ≡ count uid w
  unfolding find_server_by_name_or_meta
  find-Quiet name machine_uid w = ground (arith, lawful.list_keeps uid w)

  get-Quiet : (uuid : String) (w : W) → count uid (get_server c uuid w).1 ≡ count uid w
  unfolding get_server
  get-Quiet uuid w = ground (arith, lawful.get_keeps uuid uid w)

  after_search-Quiet :
      (found : Result Error (Option Server)) → Quiet (after_search kube timer http c found)
  unfolding after_search
  after_search-Quiet (ok (some server)) s = adopt-Quiet server s
  after_search-Quiet (ok none) s = ground (arith, clear_instance-Quiet s)
  after_search-Quiet (err e) s = ground (arith, clear_instance-Quiet s)

  find_accessible-Quiet : Quiet (find_accessible kube timer http c)
  unfolding find_accessible
  find_accessible-Quiet (m, w) =
      let called = find_server_by_name_or_meta c m.name m.uid w in
      ground (arith, find-Quiet m.name m.uid w, after_search-Quiet called.0 (m, called.1))

  checked-Quiet : (found : Result Error (Option Server)) → Quiet (checked kube timer http c found)
  unfolding checked
  checked-Quiet (ok (some server)) s = (refl, refl)
  checked-Quiet (ok none) s = ground (arith, clear_instance-Quiet s)
  checked-Quiet (err e) s = ground (arith, find_accessible-Quiet s)

  pub check_existing-Quiet : Quiet (check_existing kube timer http c)
  unfolding check_existing
  check_existing-Quiet (m, w) =
      let called = get_server c m.instance_id w in
      ground (arith, get-Quiet m.instance_id w, checked-Quiet called.0 (m, called.1))

  pub start-Quiet : (uuid : String) (w : W) → count uid (start_server c uuid w).1 ≡ count uid w
  unfolding start_server
  start-Quiet uuid w = ground (arith, lawful.start_keeps uuid uid w)

  start_if_needed-Quiet : (server : Server) → Quiet (start_if_needed kube timer http c server)
  unfolding start_if_needed
  start_if_needed-Quiet server (m, w) = ground (arith, start-Quiet server.uuid w)

  tag_created-Quiet : (server : Server) → Quiet (tag_created kube timer http c server)
  unfolding tag_created tag_server
  tag_created-Quiet server (m, w) = (
    ensure_tags_keeps c.sdk.tags (count uid) (lawful.tag_list_keeps uid)
        (λ uuid body. lawful.tag_update_keeps uuid body uid)
        (λ bodies. lawful.tag_create_keeps bodies uid)
        (server_tags (value_of "cluster.x-k8s.io/cluster-name" m.labels)
          (value_of "cluster.x-k8s.io/deployment-name" m.labels))
        server.uuid w,
    refl,
  )

  pub record_created-Quiet : (server : Server) → Quiet (record_created kube timer http c server)
  unfolding record_created
  record_created-Quiet server s =
      let tagged = (tag_created kube timer http c server s).1 in
      let recorded = (write_status kube (with_instance server tagged.0, tagged.1)).1 in
      let written = (write kube (with_provider_id server recorded.0, recorded.1)).1 in
      ground (
        arith,
        tag_created-Quiet server s,
        write_status-Quiet (with_instance server tagged.0, tagged.1),
        write-Quiet (with_provider_id server recorded.0, recorded.1),
        start_if_needed-Quiet server written,
      )
