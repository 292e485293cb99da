-- ===== src/Machine/Delete/Finalizer.antt =====
-- `reconcileDelete` and the finalizer that is stored.
use cluster_api_provider_clo.Prelude.{
  ℕ, zero, suc, ◌≡◌, ◌⊎◌, ap, subst, ◌∙◌, refl, String, false, Option, some, none, List, [], ◌∷◌,
  contains, Result, ok, err, arith, Result-cases, Option-cases, inl, inr,
}
use cluster_api_provider_clo.CloudSdk.{Server, Tag}
use cluster_api_provider_clo.GoError.{Error}
use cluster_api_provider_clo.Tags.{untag_server, is_capcs_managed_tag}
use cluster_api_provider_clo.Tags.Frame.{untag_resource_keeps}
use cluster_api_provider_clo.Cloud.Types.{Client}
use cluster_api_provider_clo.Cloud.Drives.{delete_drive}
use cluster_api_provider_clo.Cloud.Servers.{
  get_server, stop_server, delete_drives, delete_ips, drive_uuids, public_ips, delete_found,
  after_reading, delete_server,
}
use cluster_api_provider_clo.Machine.Types.{Machine, MachineApi}
use cluster_api_provider_clo.Machine.Steps.{machine_finalizer, remove_finalizer, write}
use cluster_api_provider_clo.Machine.Delete.{
  await_stopped, stop_first, after_deletion, delete_left, shut_down, drop_finalizer, after_check,
  reconcile_delete,
}

-- An update that succeeds stores the finalizers that were sent, one that fails has stored them or not.
abbrev pub Stores : List String → List String → List String → Result String Machine → Type 0
Stores sent before after (ok answer) = after ≡ sent
Stores sent before after (err e) = (after ≡ before) ⊎ (after ≡ sent)

-- The finalizers that the Kubernetes API holds for the machine: only the update changes them.
pub record IsLawful {W : Type 0} (kube : MachineApi W) (sleep : W → W) (c : Client W)
    (stored : W → List String) : Type 0 where
  pub update_stores :
      (m : Machine) (w : W)
      → Stores m.finalizers (stored w) (stored (kube.update m w).1) (kube.update m w).0
  pub sleep_keeps : (w : W) → stored (sleep w) ≡ stored w
  pub get_keeps : (uuid : String) (w : W) → stored (c.sdk.servers.get uuid w).1 ≡ stored w
  pub stop_keeps : (uuid : String) (w : W) → stored (c.sdk.servers.stop uuid w).1 ≡ stored w
  pub delete_keeps : (uuid : String) (w : W) → stored (c.sdk.servers.delete uuid w).1 ≡ stored w
  pub drive_delete_keeps :
      (uuid : String) (w : W) → stored (c.sdk.drives.delete uuid w).1 ≡ stored w
  pub tag_list_keeps : (w : W) → stored (c.sdk.tags.list w).1 ≡ stored w
  pub tag_update_keeps :
      (uuid : String) (body : Tag) (w : W) → stored (c.sdk.tags.update uuid body w).1 ≡ stored w
  pub tag_create_keeps :
      (bodies : List Tag) (w : W) → stored (c.sdk.tags.create bodies w).1 ≡ stored w

remove_finalizer-gone :
    (name : String) (finalizers : List String)
    → contains (remove_finalizer name finalizers) name ≡ false
unfolding contains remove_finalizer
remove_finalizer-gone name [] = refl
remove_finalizer-gone name (first ∷ rest) = ground (arith, remove_finalizer-gone name rest)

module _ {W : Type 0} (kube : MachineApi W) (sleep : W → W) (c : Client W)
    (stored : W → List String) (lawful : IsLawful kube sleep c stored) where
  -- An update failed, but it was stored, and without the finalizer.
  abbrev pub LostAnswer : List String → Type 0
  LostAnswer after =
      (sent : Machine) × (when : W) × (e : String) × ((kube.update sent when).0 ≡ err e)
      × (after ≡ sent.finalizers)
      × (contains after machine_finalizer ≡ false)

  -- What `reconcileDelete` leaves behind.
  abbrev pub AfterDelete : List String → List String → Result Error (Unit {0}) → Type 0
  AfterDelete before after (ok _) = contains after machine_finalizer ≡ false
  AfterDelete before after (err e) = (after ≡ before) ⊎ LostAnswer after

  get_keeps : (uuid : String) (w : W) → stored (get_server c uuid w).1 ≡ stored w
  unfolding get_server
  get_keeps uuid w = ground (arith, lawful.get_keeps uuid w)

  stop_keeps : (uuid : String) (w : W) → stored (stop_server c uuid w).1 ≡ stored w
  unfolding stop_server
  stop_keeps uuid w = ground (arith, lawful.stop_keeps uuid w)

  delete_drives_keeps : (uuids : List String) (w : W) → stored (delete_drives c uuids w) ≡ stored w
  unfolding delete_drives delete_drive
  delete_drives_keeps [] w = refl
  delete_drives_keeps (uuid ∷ uuids) w = ground (
    arith,
    lawful.drive_delete_keeps uuid w,
    delete_drives_keeps uuids (c.sdk.drives.delete uuid w).1,
  )

  delete_ips_keeps : (uuids : List String) (w : W) → stored (delete_ips c uuids w) ≡ stored w
  unfolding delete_ips
  delete_ips_keeps [] w = refl
  delete_ips_keeps (uuid ∷ uuids) w = delete_ips_keeps uuids w

  delete_found_keeps :
      (uuid : String) (server : Server) (w : W) → stored (delete_found c uuid server w).1 ≡ stored w
  unfolding delete_found
  delete_found_keeps uuid server w =
      let stopped = (stop_server c uuid w).1 in
      let uuids = drive_uuids server.drives in
      let ips = public_ips server.nics in
      ground (
        arith,
        stop_keeps uuid w,
        lawful.delete_keeps uuid w,
        lawful.delete_keeps uuid stopped,
        delete_drives_keeps uuids (c.sdk.servers.delete uuid w).1,
        delete_drives_keeps uuids (c.sdk.servers.delete uuid stopped).1,
        delete_ips_keeps ips (delete_drives c uuids (c.sdk.servers.delete uuid w).1),
        delete_ips_keeps ips (delete_drives c uuids (c.sdk.servers.delete uuid stopped).1),
      )

  after_reading_keeps :
      (uuid : String) (before : List String) (found : Result Error (Option Server) × W)
      → stored found.1 ≡ before
      → stored (after_reading c uuid found).1 ≡ before
  after_reading_keeps uuid before (err e, w) same = same
  after_reading_keeps uuid before (ok none, w) same = same
  after_reading_keeps uuid before (ok (some server), w) same =
      delete_found_keeps uuid server w ∙ same

  after_deletion_keeps :
      (called : Result Error (Unit {0}) × W)
      → stored (after_deletion kube sleep c called).1 ≡ stored called.1
  after_deletion_keeps (ok _, w) = refl
  after_deletion_keeps (err e, w) = ground arith

  delete_left_keeps :
      (id : String) (left : Option Server) (w : W)
      → stored (delete_left kube sleep c id left w).1 ≡ stored w
  unfolding delete_left delete_server
  delete_left_keeps id none w = refl
  delete_left_keeps id (some server) w =
      after_deletion_keeps (delete_server c id w)
      ∙ after_reading_keeps id (stored w) (get_server c id w) (get_keeps id w)

  await_stopped_keeps :
      (rounds : ℕ) (id : String) (last : Server) (w : W)
      → stored (await_stopped kube sleep c rounds id last w).1 ≡ stored w
  unfolding await_stopped
  await_stopped_keeps zero id last w = refl
  await_stopped_keeps (suc rounds) id last w =
      let called = get_server c id w in
      elim (Result-cases called.0) [
        | inr (e, failed) ↦ ground (arith, failed, get_keeps id w)
        | inl (found, done) ↦ elim (Option-cases found) [
          | inl absent ↦ ground (arith, done, absent, get_keeps id w)
          | inr (server, e) ↦ ground (
            arith,
            done,
            e,
            get_keeps id w,
            lawful.sleep_keeps called.1,
            await_stopped_keeps rounds id server (sleep called.1),
          )
        ]
      ]

  stop_first_keeps :
      (id : String) (server : Server) (w : W)
      → stored (stop_first kube sleep c id server w).1 ≡ stored w
  unfolding stop_first
  stop_first_keeps id server w = ground (arith, stop_keeps id w)

  shut_down_keeps :
      (id : String) (server : Server) (w : W)
      → stored (shut_down kube sleep c id server w).1 ≡ stored w
  unfolding shut_down
  shut_down_keeps id server w =
      let stopped = (stop_first kube sleep c id server w).1 in
      let awaited = await_stopped kube sleep c 12 id server stopped in
      elim (Result-cases awaited.0) [
        | inr (e, failed) ↦
            ground (
              arith,
              failed,
              stop_first_keeps id server w,
              await_stopped_keeps 12 id server stopped,
            )
        | inl (left, done) ↦ ground (
          arith,
          done,
          stop_first_keeps id server w,
          await_stopped_keeps 12 id server stopped,
          delete_left_keeps id left awaited.1,
        )
      ]

  drop_finalizer-AfterDelete :
      (context : String) (before : List String) (m : Machine) (w : W)
      → stored w ≡ before
      → AfterDelete before
          (stored (drop_finalizer kube sleep c context (m, w)).1.1)
          (drop_finalizer kube sleep c context (m, w)).0
  unfolding drop_finalizer write
  drop_finalizer-AfterDelete context before m w same =
      let sent : Machine = record m {
        finalizers = remove_finalizer machine_finalizer m.finalizers;
      } in
      elim (Result-cases (kube.update sent w).0) [
        | inl (answer, done) ↦ ground (
          arith,
          done,
          lawful.update_stores sent w,
          remove_finalizer-gone machine_finalizer m.finalizers,
        )
        | inr (e, failed) ↦
            let after = stored (kube.update sent w).1 in
            let law =
              subst (Stores sent.finalizers (stored w) after) failed
                (lawful.update_stores sent w) in
            let left : (after ≡ before) ⊎ LostAnswer after = elim law [
              | inl kept ↦ inl (kept ∙ same)
              | inr lost ↦ inr (
                sent,
                w,
                e,
                failed,
                lost,
                ap (λ xs. contains xs machine_finalizer) lost
                    ∙ remove_finalizer-gone machine_finalizer m.finalizers,
              )
            ] in
            ground (arith, failed, left)
      ]

  after_check-AfterDelete :
      (found : Result Error (Option Server)) (before : List String) (m : Machine) (w : W)
      → stored w ≡ before
      → AfterDelete before
          (stored (after_check kube sleep c found (m, w)).1.1)
          (after_check kube sleep c found (m, w)).0
  unfolding after_check
  after_check-AfterDelete (ok none) before m w same =
      drop_finalizer-AfterDelete "failed to remove finalizer" before m w same
  after_check-AfterDelete (err e) before m w same = ground (
    arith,
    drop_finalizer-AfterDelete "failed to remove finalizer after permission denied" before m w same,
  )
  after_check-AfterDelete (ok (some server)) before m w same =
      let w' = (shut_down kube sleep c m.instance_id server w).1 in
      ground (
        arith,
        shut_down_keeps m.instance_id server w,
        drop_finalizer-AfterDelete "failed to remove finalizer" before m w',
      )

  -- Over calls that keep the laws of Machine/Delete/Finalizer, of which only the update changes
  -- what the Kubernetes API holds for the machine: when `reconcileDelete` succeeds, the finalizer
  -- is gone there; when it fails, the finalizers that are held there stay as they were, unless an
  -- update without the finalizer was stored and answered with an error.
  pub reconcile_delete-AfterDelete :
      (m : Machine) (w : W)
      → AfterDelete
          (stored w)
          (stored (reconcile_delete kube sleep c (m, w)).1.1)
          (reconcile_delete kube sleep c (m, w)).0
  unfolding reconcile_delete untag_server
  reconcile_delete-AfterDelete m w =
      let untagged = untag_server (some c.sdk.tags) m.instance_id w in
      let found = get_server c m.instance_id untagged in
      ground (
        arith,
        drop_finalizer-AfterDelete "failed to remove finalizer" (stored w) m w refl,
        after_check-AfterDelete found.0 (stored w) m found.1 (
            get_keeps m.instance_id untagged
            ∙ untag_resource_keeps c.sdk.tags stored lawful.tag_list_keeps lawful.tag_update_keeps
                lawful.tag_create_keeps is_capcs_managed_tag m.instance_id w),
      )
