-- ===== src/Cluster/Ready.antt =====
-- When a cluster counts as ready.
use cluster_api_provider_clo.Prelude.{
  ◌≡◌, ◌≢◌, sym, ap, subst, refl, ◌∙◌, String, List, [], ◌∷◌, ◌++◌, some, true, contains,
  Bool-cases, ==_iff, Result, ok, err, arith, Result-cases, Option-cases, inl, inr,
}
use cluster_api_provider_clo.CloudSdk.{Vlan}
use cluster_api_provider_clo.Cloud.Types.{Client}
use cluster_api_provider_clo.Cloud.Network.{get_vlan}
use cluster_api_provider_clo.Cluster.{
  Cluster, ClusterApi, cluster_finalizer, as_ready, mark_ready, ensure_finalizer, reconcile_vlan,
  reconcile_network, reconcile_normal,
}

-- The object in the answer to an update has the finalizers that were sent.
abbrev pub SameFinalizers : List String → Result String Cluster → Type 0
SameFinalizers finalizers (ok stored) = stored.finalizers ≡ finalizers
SameFinalizers finalizers (err e) = Unit

contains_last : (xs : List String) (name : String) → contains (xs ++ (name ∷ [])) name ≡ true
unfolding contains
contains_last [] name = ground (arith, ==_iff name name)
contains_last (x ∷ xs) name = ground (arith, contains_last xs name)

module _ {W : Type 0} (api : ClusterApi W) (c : Client W) where
  -- The VLAN that the cluster asks for by its UUID was found, and is the one in its status.
  abbrev pub HasVlan : Cluster → Type 0
  HasVlan cluster =
      (uuid : String)
      → cluster.vlan ≡ some uuid
      → uuid ≢ ""
      → (vlan : Vlan) × (when : W) × ((get_vlan c uuid when).0 ≡ ok (some vlan))
        × (cluster.vlan_uuid ≡ some vlan.uuid)

  -- The finalizer is on the cluster, both parts of it are ready, and its VLAN is there.
  abbrev pub IsReady : Cluster → Type 0
  IsReady cluster =
      (cluster.ready ≡ true)
      × (cluster.network_ready ≡ true)
      × (contains cluster.finalizers "cloudsigmacluster.infrastructure.cluster.x-k8s.io" ≡ true)
      × HasVlan cluster

  vlan_found :
      (uuid : String) (cluster : Cluster) (w : W)
      → uuid ≢ ""
      → (reconcile_vlan api c uuid (cluster, w)).0 ≡ ok tt
      → (vlan : Vlan) × (when : W) × ((get_vlan c uuid when).0 ≡ ok (some vlan))
        × ((reconcile_vlan api c uuid (cluster, w)).1.0.vlan_uuid ≡ some vlan.uuid)
  unfolding reconcile_vlan
  vlan_found uuid cluster w set h = elim (Result-cases (get_vlan c uuid w).0) [
    | inr (e, failed) ↦ absurd (ground (arith, failed, ==_iff uuid ""))
    | inl (found, done) ↦ elim (Option-cases found) [
      | inl absent ↦ absurd (ground (arith, done, absent, ==_iff uuid ""))
      | inr (vlan, e) ↦ (vlan, w, ground (arith, done, e), ground (arith, done, e, ==_iff uuid ""))
    ]
  ]

  reconcile_vlan_keeps :
      (uuid : String) (cluster : Cluster) (w : W)
      → ((reconcile_vlan api c uuid (cluster, w)).1.0.vlan ≡ cluster.vlan)
        × ((reconcile_vlan api c uuid (cluster, w)).1.0.finalizers ≡ cluster.finalizers)
  unfolding reconcile_vlan
  reconcile_vlan_keeps uuid cluster w = elim (Result-cases (get_vlan c uuid w).0) [
    | inr (e, failed) ↦ ground (arith, failed)
    | inl (found, done) ↦ elim (Option-cases found) [
      | inl absent ↦ ground (arith, done, absent)
      | inr (vlan, e) ↦ ground (arith, done, e)
    ]
  ]

  network_keeps :
      (cluster : Cluster) (w : W)
      → ((reconcile_network api c (cluster, w)).1.0.vlan ≡ cluster.vlan)
        × ((reconcile_network api c (cluster, w)).1.0.finalizers ≡ cluster.finalizers)
  unfolding reconcile_network
  network_keeps cluster w = elim (Option-cases cluster.vlan) [
    | inl absent ↦ ground (arith, absent)
    | inr (uuid, asked) ↦ ground (arith, asked, reconcile_vlan_keeps uuid cluster w)
  ]

  network_vlan :
      (cluster : Cluster) (w : W) (uuid : String)
      → (reconcile_network api c (cluster, w)).0 ≡ ok tt
      → cluster.vlan ≡ some uuid
      → uuid ≢ ""
      → (vlan : Vlan) × (when : W) × ((get_vlan c uuid when).0 ≡ ok (some vlan))
        × ((reconcile_network api c (cluster, w)).1.0.vlan_uuid ≡ some vlan.uuid)
  unfolding reconcile_network
  network_vlan cluster w uuid h asked set =
      let done : (reconcile_vlan api c uuid (cluster, w)).0 ≡ ok tt = ground (arith, asked, h) in
      let (vlan, when, got, kept) = vlan_found uuid cluster w set done in
      (vlan, when, got, ground (arith, asked, kept))

  network-HasVlan :
      (cluster : Cluster) (w : W)
      → (reconcile_network api c (cluster, w)).0 ≡ ok tt
      → HasVlan (reconcile_network api c (cluster, w)).1.0
  network-HasVlan cluster w h uuid asked set =
      network_vlan cluster w uuid h (sym (network_keeps cluster w).0 ∙ asked) set

  ensure_finalizer_there :
      (cluster : Cluster) (w : W)
      → ((m : Cluster) (w' : W) → SameFinalizers m.finalizers (api.update m w').0)
      → (ensure_finalizer api (cluster, w)).0 ≡ ok tt
      → contains (ensure_finalizer api (cluster, w)).1.0.finalizers cluster_finalizer ≡ true
  unfolding ensure_finalizer
  ensure_finalizer_there cluster w stores h =
      let sent : Cluster = record cluster {
        finalizers = cluster.finalizers ++ (cluster_finalizer ∷ []);
      } in
      elim (Bool-cases (contains cluster.finalizers cluster_finalizer)) [
        | inl there ↦ ground (arith, there)
        | inr absent ↦ elim (Result-cases (api.update sent w).0) [
          | inr (e, failed) ↦ absurd (ground (arith, absent, failed, h))
          | inl (stored, done) ↦
              let same : stored.finalizers ≡ sent.finalizers =
                subst (SameFinalizers sent.finalizers) done (stores sent w) in
              ground (
                arith,
                absent,
                done,
                ap (λ xs. contains xs cluster_finalizer) same
                    ∙ contains_last cluster.finalizers cluster_finalizer,
              )
        ]
      ]

  -- The last step: the status is stored as ready.
  mark_ready_answered :
      (cluster : Cluster) (w : W)
      → (mark_ready api c (cluster, w)).0 ≡ ok tt
      → (answer : Cluster) × ((api.update_status
            (record cluster { ready = true; network_ready = true })
            w).0
          ≡ ok answer)
        × ((mark_ready api c (cluster, w)).1.0 ≡ answer)
  unfolding mark_ready
  mark_ready_answered cluster w h = elim (Result-cases (api.update_status (as_ready cluster) w).0) [
    | inr (e, failed) ↦ absurd (ground (arith, failed, h))
    | inl (answer, done) ↦ (answer, done, ground (arith, done))
  ]

  -- If an update answers with the finalizers that it sent, then a `reconcileNormal` that succeeds has
  -- stored a status and left the cluster as the answer to that. What it stored has the finalizer, is
  -- ready with its network, and, if it names a VLAN by a UUID that is not empty, holds the UUID of
  -- the VLAN that was found under it.
  pub reconcile_normal-IsReady :
      ((m : Cluster) (w : W) → SameFinalizers m.finalizers (api.update m w).0)
      → (cluster : Cluster) (w : W) → (reconcile_normal api c (cluster, w)).0 ≡ ok tt
      → (sent : Cluster) × (when : W) × (answer : Cluster) × IsReady sent
        × ((api.update_status sent when).0 ≡ ok answer)
        × ((reconcile_normal api c (cluster, w)).1.0 ≡ answer)
  unfolding reconcile_normal
  reconcile_normal-IsReady stores cluster w h =
      let finalized = ensure_finalizer api (cluster, w) in
      let network = reconcile_network api c finalized.1 in
      elim (Result-cases finalized.0) [
        | inr (e, failed) ↦ absurd (ground (arith, failed, h))
        | inl (_, done) ↦ elim (Result-cases network.0) [
          | inr (e, failed) ↦ absurd (ground (arith, done, failed, h))
          | inl (_, connected) ↦
              let marked : (mark_ready api c network.1).0 ≡ ok tt =
                ground (arith, done, connected, h) in
              let (answer, answered, left) = mark_ready_answered network.1.0 network.1.1 marked in
              (
                as_ready network.1.0,
                network.1.1,
                answer,
                (
                  refl,
                  refl,
                  ap (λ xs. contains xs cluster_finalizer)
                        (network_keeps finalized.1.0 finalized.1.1).1
                      ∙ ensure_finalizer_there cluster w stores done,
                  network-HasVlan finalized.1.0 finalized.1.1 connected,
                ),
                answered,
                ground (arith, done, connected, left),
              )
        ]
      ]
