-- ===== src/Machine/Unique.antt =====
-- When `reconcileNormal` makes a server.
use cluster_api_provider_clo.Prelude.{
  ℕ, ◌≡◌, ◌≢◌, inl, inr, refl, sym, ap, subst, ◌∙◌, ◌+◌, ◌⊎◌, List, if-elim, ◌==◌, String, Option,
  some, none, Action, Result, ok, err, run_next, arith, Result-cases, Option-cases,
}
use cluster_api_provider_clo.CloudSdk.{ApiError, Server}
use cluster_api_provider_clo.GoError.{Error}
use cluster_api_provider_clo.Cloud.Types.{Client, Timer, HttpApi}
use cluster_api_provider_clo.Cloud.Servers.{find_server_by_name_or_meta}
use cluster_api_provider_clo.Cloud.Servers.Find.{Finds, NoneOwn, find_server_by_name_or_meta-Finds}
use cluster_api_provider_clo.Cloud.Servers.Create.{create_server}
use cluster_api_provider_clo.Machine.Types.{
  Machine, OwnerMachine, MachineApi, Next, requeue, proceed,
}
use cluster_api_provider_clo.Machine.Steps.{server_spec, ensure_finalizer, get_bootstrap_data}
use cluster_api_provider_clo.Machine.Normal.{
  check_existing, after_creation, create, adopt_or_create, find_or_create, locate, reconcile_normal,
}
use cluster_api_provider_clo.Machine.Store.{IsCounting}
use cluster_api_provider_clo.Machine.Created.{Adds, create_server_counts}
use cluster_api_provider_clo.Machine.Quiet.{
  Quiet, adopt-Quiet, find-Quiet, ensure_finalizer-Quiet, check_existing-Quiet,
  record_created-Quiet,
}
use cluster_api_provider_clo.Machine.Watch.{observe_found-Quiet}

module _ {W : Type 0} (kube : MachineApi W) (timer : Timer W) (http : HttpApi W) (c : Client W)
    (count : String → W → ℕ) (lawful : IsCounting kube timer http c count) (uid : String) where
  bootstrap_counts :
      (owner : OwnerMachine) (w : W) → count uid (get_bootstrap_data kube owner w).1 ≡ count uid w
  unfolding get_bootstrap_data
  bootstrap_counts owner w = elim (Option-cases owner.data_secret_name) [
    | inl absent ↦ ground (arith, absent)
    | inr (name, e) ↦ ground (arith, e, lawful.secret_keeps owner.namespace name uid w)
  ]

  after_creation-Quiet :
      (created : Result Error Server)
      → Quiet kube timer http c count lawful uid (after_creation kube timer http c created)
  unfolding after_creation
  after_creation-Quiet (ok server) s =
      record_created-Quiet kube timer http c count lawful uid server s
  after_creation-Quiet (err e) s = (refl, refl)

  create-Adds :
      (owner : OwnerMachine) (m : Machine) (w : W)
      → Adds kube timer http c count lawful uid m
          (count uid w)
          (count uid (create kube timer http c owner (m, w)).1.1)
  unfolding create
  create-Adds owner m w =
      let bootstrap = get_bootstrap_data kube owner w in
      elim (Result-cases bootstrap.0) [
        | inr (e, failed) ↦ inl (ground (arith, failed, bootstrap_counts owner w))
        | inl (bootstrap_data, done) ↦
            let created = create_server timer http c (server_spec m bootstrap_data) bootstrap.1 in
            ground (
              arith,
              done,
              bootstrap_counts owner w,
              create_server_counts kube timer http c count lawful uid m bootstrap_data bootstrap.1,
              after_creation-Quiet created.0 (m, created.1),
            )
      ]

  unlisted :
      (name : String) (e : ApiError) (w : W)
      → (c.sdk.servers.list w).0 ≡ err e
      → (find_server_by_name_or_meta c name uid w).0 ≢ ok none
  unfolding find_server_by_name_or_meta
  unlisted name e w failed h = ground (arith, failed, h)

  -- The listing that is made in the state `when`, in which the count is as before, has no server that
  -- is the machine's own.
  abbrev pub Unseen : ℕ → W → Type 0
  Unseen before when =
      (servers : List Server) × ((c.sdk.servers.list when).0 ≡ ok servers)
      × (count uid when ≡ before)
      × NoneOwn uid servers

  -- What becomes of the count, for a machine of the UID `own`.
  abbrev pub Grows : String → ℕ → W → ℕ → Type 0
  Grows own before when after =
      (after ≡ before) ⊎ ((after ≡ 1 + before) × (own ≡ uid) × Unseen before when)

  -- A search that finds nothing has seen a listing without the machine's own server.
  find_none :
      (name : String) (w : W)
      → uid ≢ ""
      → (find_server_by_name_or_meta c name uid w).0 ≡ ok none
      → Unseen (count uid w) w
  find_none name w set h = elim (Result-cases (c.sdk.servers.list w).0) [
    | inr (e, failed) ↦ absurd (unlisted name e w failed h)
    | inl (servers, listed) ↦
        let (found, answered, finds) =
          find_server_by_name_or_meta-Finds c name uid servers w set listed in
        let none_own : NoneOwn uid servers =
          (subst (Finds name uid servers) (ok-inj (sym answered ∙ h)) finds).0 in
        (servers, listed, refl, none_own)
  ]
    where
      ok-inj : {a b : Option Server} → Path (Result Error (Option Server)) (ok a) (ok b) → a ≡ b
      ok-inj e = ground (arith, e)

  adopt_or_create-Grows :
      (owner : OwnerMachine) (m : Machine) (w when : W) (found : Result Error (Option Server))
      (before : ℕ)
      → count uid w ≡ before
      → (m.uid ≡ uid → found ≡ ok none → Unseen before when)
      → Grows m.uid before when
          (count uid (adopt_or_create kube timer http c owner found (m, w)).1.1)
  unfolding adopt_or_create
  adopt_or_create-Grows owner m w when (err e) before same unseen = inl same
  adopt_or_create-Grows owner m w when (ok (some server)) before same unseen =
      inl ((adopt-Quiet kube timer http c count lawful uid server (m, w)).0 ∙ same)
  adopt_or_create-Grows owner m w when (ok none) before same unseen = elim (create-Adds owner m w) [
    | inl kept ↦ inl (kept ∙ same)
    | inr (more, own) ↦ inr (more ∙ ap (λ n. 1 + n) same, own, unseen own refl)
  ]

  find_or_create-Grows :
      (owner : OwnerMachine) (server : Option Server) (s : Machine × W)
      → uid ≢ ""
      → Grows s.0.uid
          (count uid s.1)
          s.1
          (count uid (find_or_create kube timer http c owner server s).1.1)
  unfolding find_or_create
  find_or_create-Grows owner server (m, w) set =
      let found = find_server_by_name_or_meta c m.name m.uid w in
      let grown : Grows m.uid (count uid w) w
          (count uid (adopt_or_create kube timer http c owner found.0 (m, found.1)).1.1) =
        adopt_or_create-Grows owner m found.1 w found.0 (count uid w)
          (find-Quiet kube timer http c count lawful uid m.name m.uid w)
          (λ own e.
            subst
              (λ u. (find_server_by_name_or_meta c m.name u w).0 ≡ ok none → Unseen (count uid w) w)
              (sym own) (find_none m.name w set) e) in
      if-elim
        (λ (r : Result Error (Next (Option Server)) × (Machine × W)).
          Grows m.uid (count uid w) w (count uid r.1.1))
        (m.instance_id == "") grown (inl refl)

  locate-Grows :
      (owner : OwnerMachine) (next : Next (Option Server)) (s : Machine × W)
      → uid ≢ ""
      → Grows s.0.uid (count uid s.1) s.1 (count uid (locate kube timer http c owner next s).1.1)
  unfolding locate
  locate-Grows owner (requeue n) s set = inl refl
  locate-Grows owner (proceed server) s set = find_or_create-Grows owner server s set

  starts_still :
      {A B : Type 0} (f : A → Action (Machine × W) Error B) (s : Machine × W) (when : W)
      (called : Result Error A × (Machine × W))
      → (count uid called.1.1 ≡ count uid s.1) × (called.1.0.uid ≡ s.0.uid)
      → ((a : A) → Grows called.1.0.uid (count uid called.1.1) when (count uid (f a called.1).1.1))
      → Grows s.0.uid (count uid s.1) when (count uid (run_next f called).1.1)
  starts_still f s when (ok a, s') same k =
      subst (λ own. Grows own (count uid s.1) when (count uid (f a s').1.1)) same.1
        (subst (λ before. Grows s'.0.uid before when (count uid (f a s').1.1)) same.0 (k a))
  starts_still f s when (err e, s') same k = inl same.0

  ends_still :
      {A B : Type 0} (f : A → Action (Machine × W) Error B) (s : Machine × W) (when : W)
      (called : Result Error A × (Machine × W))
      → Grows s.0.uid (count uid s.1) when (count uid called.1.1)
      → ((a : A) → Quiet kube timer http c count lawful uid (f a))
      → Grows s.0.uid (count uid s.1) when (count uid (run_next f called).1.1)
  ends_still f s when (ok a, s') grown k =
      subst (Grows s.0.uid (count uid s.1) when) (sym (k a s').0) grown
  ends_still f s when (err e, s') grown k = grown

  -- Over calls that keep the laws of Machine/Store, which leave open whether a listing is up to
  -- date and whether a call that fails has made a server: `reconcileNormal` of a machine, whatever
  -- fails, either leaves the number of servers with a given UID, which is not empty, as it was, or
  -- makes one more, and that only if the UID is the machine's and the listing that is made in the
  -- state behind the finalizer and the check of the existing server shows no server with it.
  pub reconcile_normal-Grows :
      (owner : OwnerMachine) (m : Machine) (w : W)
      → uid ≢ ""
      → Grows m.uid
          (count uid w)
          (check_existing kube timer http c (ensure_finalizer kube (m, w)).1).1.1
          (count uid (reconcile_normal kube timer http c owner (m, w)).1.1)
  unfolding reconcile_normal
  reconcile_normal-Grows owner m w set =
      let finalized = ensure_finalizer kube (m, w) in
      let checked = check_existing kube timer http c finalized.1 in
      starts_still _ (m, w) checked.1.1 finalized
        (ensure_finalizer-Quiet kube timer http c count lawful uid (m, w))
        (λ _.
          starts_still _ finalized.1 checked.1.1 checked
            (check_existing-Quiet kube timer http c count lawful uid finalized.1)
            (λ existing.
              ends_still _ checked.1 checked.1.1 (locate kube timer http c owner existing checked.1)
                (locate-Grows owner existing checked.1 set)
                (λ found. observe_found-Quiet kube timer http c count lawful uid found)))
