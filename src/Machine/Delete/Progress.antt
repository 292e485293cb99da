-- ===== src/Machine/Delete/Progress.antt =====
-- `reconcileDelete` comes to its end.
use cluster_api_provider_clo.Prelude.{
  ℕ, zero, suc, ◌≡◌, refl, String, Bool, true, false, Option, some, none, Result, ok, err, arith,
  Result-cases, Option-cases, inl, inr,
}
use cluster_api_provider_clo.CloudSdk.{Server}
use cluster_api_provider_clo.GoError.{Error}
use cluster_api_provider_clo.Tags.{untag_server}
use cluster_api_provider_clo.Cloud.Types.{Client}
use cluster_api_provider_clo.Cloud.Servers.{
  get_server, stop_server, delete_found, after_reading, delete_server,
}
use cluster_api_provider_clo.Machine.Types.{Machine, MachineApi}
use cluster_api_provider_clo.Machine.Steps.{machine_finalizer, remove_finalizer, write}
use cluster_api_provider_clo.Machine.Delete.{
  await_stopped, stop_first, delete_left, shut_down, drop_finalizer, after_check, reconcile_delete,
}

abbrev pub is_ok {ℓ} : {A : Type ℓ} {E : Type 0} → Result E A → Bool
is_ok (ok a) = true
is_ok (err e) = false

-- The calls of `reconcileDelete` answer: the server is there, in whatever state.
pub record IsServing {W : Type 0} (kube : MachineApi W) (c : Client W) : Type 0 where
  pub get_answers : (uuid : String) (w : W) → is_ok (c.sdk.servers.get uuid w).0 ≡ true
  pub stop_answers : (uuid : String) (w : W) → is_ok (c.sdk.servers.stop uuid w).0 ≡ true
  pub delete_answers : (uuid : String) (w : W) → is_ok (c.sdk.servers.delete uuid w).0 ≡ true
  pub update_answers : (m : Machine) (w : W) → is_ok (kube.update m w).0 ≡ true

module _ {W : Type 0} (kube : MachineApi W) (sleep : W → W) (c : Client W)
    (serving : IsServing kube c) where
  -- `GetServer` finds a server.
  abbrev IsFound : Result Error (Option Server) → Type 0
  IsFound (ok (some server)) = Unit
  IsFound (ok none) = ⊥
  IsFound (err e) = ⊥

  get_server-IsFound : (uuid : String) (w : W) → IsFound (get_server c uuid w).0
  unfolding get_server
  get_server-IsFound uuid w = ground (arith, serving.get_answers uuid w)

  await_stopped_answers :
      (rounds : ℕ) (id : String) (last : Server) (w : W)
      → is_ok (await_stopped kube sleep c rounds id last w).0 ≡ true
  unfolding await_stopped
  await_stopped_answers zero id last w = refl
  await_stopped_answers (suc rounds) id last w =
      let called = get_server c id w in
      elim (Result-cases called.0) [
        | inr (e, failed) ↦ ground (arith, failed, get_server-IsFound id w)
        | inl (found, done) ↦ elim (Option-cases found) [
          | inl absent ↦ ground (arith, done, absent, get_server-IsFound id w)
          | inr (server, e) ↦
              ground (arith, done, e, await_stopped_answers rounds id server (sleep called.1))
        ]
      ]

  stop_answers : (uuid : String) (w : W) → is_ok (stop_server c uuid w).0 ≡ true
  unfolding stop_server
  stop_answers uuid w = ground (arith, serving.stop_answers uuid w)

  delete_found_answers :
      (uuid : String) (server : Server) (w : W) → is_ok (delete_found c uuid server w).0 ≡ true
  unfolding delete_found
  delete_found_answers uuid server w =
      let stopped = (stop_server c uuid w).1 in
      ground (
        arith,
        stop_answers uuid w,
        serving.delete_answers uuid w,
        serving.delete_answers uuid stopped,
      )

  after_reading_answers :
      (uuid : String) (found : Result Error (Option Server) × W)
      → IsFound found.0
      → is_ok (after_reading c uuid found).0 ≡ true
  after_reading_answers uuid (ok (some server), w) h = delete_found_answers uuid server w
  after_reading_answers uuid (ok none, w) h = absurd h
  after_reading_answers uuid (err e, w) h = absurd h

  delete_left_answers :
      (id : String) (left : Option Server) (w : W)
      → is_ok (delete_left kube sleep c id left w).0 ≡ true
  unfolding delete_left delete_server
  delete_left_answers id none w = refl
  delete_left_answers id (some server) w =
      ground (arith, after_reading_answers id (get_server c id w) (get_server-IsFound id w))

  shut_down_answers :
      (id : String) (server : Server) (w : W) → is_ok (shut_down kube sleep c id server w).0 ≡ true
  unfolding shut_down stop_first
  shut_down_answers id server w =
      let stopped = (stop_first kube sleep c id server w).1 in
      let awaited = await_stopped kube sleep c 12 id server stopped in
      elim (Result-cases awaited.0) [
        | inr (e, failed) ↦ ground (arith, failed, await_stopped_answers 12 id server stopped)
        | inl (left, done) ↦
            ground (arith, done, stop_answers id w, delete_left_answers id left awaited.1)
      ]

  drop_finalizer_answers :
      (context : String) (m : Machine) (w : W)
      → is_ok (drop_finalizer kube sleep c context (m, w)).0 ≡ true
  unfolding drop_finalizer write
  drop_finalizer_answers context m w = ground (
    arith,
    serving.update_answers
        (record m { finalizers = remove_finalizer machine_finalizer m.finalizers }) w,
  )

  after_check_answers :
      (found : Result Error (Option Server)) (m : Machine) (w : W)
      → IsFound found
      → is_ok (after_check kube sleep c found (m, w)).0 ≡ true
  unfolding after_check
  after_check_answers (ok (some server)) m w h = ground (
    arith,
    shut_down_answers m.instance_id server w,
    drop_finalizer_answers "failed to remove finalizer" m
        (shut_down kube sleep c m.instance_id server w).1,
  )
  after_check_answers (ok none) m w h = absurd h
  after_check_answers (err e) m w h = absurd h

  -- If the calls for the server and the update of the machine answer, `reconcileDelete` succeeds,
  -- in whatever states the server is seen, also if it is never seen stopped.
  pub reconcile_delete_answers :
      (m : Machine) (w : W) → (reconcile_delete kube sleep c (m, w)).0 ≡ ok tt
  unfolding reconcile_delete
  reconcile_delete_answers m w =
      let untagged = untag_server (some c.sdk.tags) m.instance_id w in
      let found = get_server c m.instance_id untagged in
      ground (
        arith,
        drop_finalizer_answers "failed to remove finalizer" m w,
        after_check_answers found.0 m found.1 (get_server-IsFound m.instance_id untagged),
      )
