-- ===== src/Machine/Watch.antt =====
-- Watching a server that exists creates none.
use cluster_api_provider_clo.Prelude.{
  ℕ, ◌≡◌, refl, String, Option, some, none, List, [], ◌∷◌, ◌++◌, Action, arith, Result-cases,
  Option-cases, inl, inr,
}
use cluster_api_provider_clo.CloudSdk.{Server}
use cluster_api_provider_clo.Cloud.Types.{Client, Timer, HttpApi}
use cluster_api_provider_clo.Cloud.Network.{get_ip}
use cluster_api_provider_clo.Cloud.Servers.{
  read_addresses, server_ips, get_server_addresses_with_client,
}
use cluster_api_provider_clo.Machine.Types.{Machine, MachineApi, Next, requeue, proceed}
use cluster_api_provider_clo.Machine.Steps.{with_provider_id, write_status}
use cluster_api_provider_clo.Machine.Normal.{
  set_addresses, running, not_running, ensure_provider_id, settle, populate, observe, observe_found,
}
use cluster_api_provider_clo.Machine.Store.{IsCounting}
use cluster_api_provider_clo.Machine.Quiet.{Quiet, write-Quiet, write_status-Quiet, start-Quiet}

module _ {W : Type 0} (kube : MachineApi W) (timer : Timer W) (http : HttpApi W) (c : Client W)
    (count : String → W → ℕ) (lawful : IsCounting kube timer http c count) (uid : String) where
  abbrev Calm : {E A : Type 0} → Action (Machine × W) E A → Type 0
  Calm call = Quiet kube timer http c count lawful uid call

  get_ip-Quiet : (uuid : String) (w : W) → count uid (get_ip c uuid w).1 ≡ count uid w
  unfolding get_ip
  get_ip-Quiet uuid w = ground (arith, lawful.ip_get_keeps uuid uid w)

  read_addresses-Quiet :
      (uuids addresses : List String) (w : W)
      → count uid (read_addresses c uuids addresses w).1 ≡ count uid w
  unfolding read_addresses
  read_addresses-Quiet [] addresses w = refl
  read_addresses-Quiet (uuid ∷ uuids) addresses w =
      let called = get_ip c uuid w in
      elim (Result-cases called.0) [
        | inr (e, failed) ↦
            ground
              (arith, failed, get_ip-Quiet uuid w, read_addresses-Quiet uuids addresses called.1)
        | inl (found, done) ↦ elim (Option-cases found) [
          | inl absent ↦ ground (arith, done, absent, get_ip-Quiet uuid w)
          | inr (ip, e) ↦ ground (
            arith,
            done,
            e,
            get_ip-Quiet uuid w,
            read_addresses-Quiet uuids addresses called.1,
            read_addresses-Quiet uuids (addresses ++ (ip.uuid ∷ [])) called.1,
          )
        ]
      ]

  ensure_provider_id-Quiet : (server : Server) → Calm (ensure_provider_id kube timer http c server)
  unfolding ensure_provider_id
  ensure_provider_id-Quiet server (m, w) =
      ground (arith, write-Quiet kube timer http c count lawful uid (with_provider_id server m, w))

  settle-Quiet :
      (server : Server) (addresses : List String) → Calm (settle kube timer http c server addresses)
  unfolding settle
  settle-Quiet server addresses (m, w) = ground (
    arith,
    start-Quiet kube timer http c count lawful uid server.uuid w,
    write_status-Quiet kube timer http c count lawful uid (running m, w),
    write_status-Quiet kube timer http c count lawful uid (not_running server m, w),
  )

  set_addresses_uid :
      (addresses : List String) (m : Machine) → (set_addresses addresses m).uid ≡ m.uid
  set_addresses_uid [] m = refl
  set_addresses_uid (first ∷ more) m = refl

  populate-Quiet : (server : Server) → Calm (populate kube timer http c server)
  unfolding populate get_server_addresses_with_client
  populate-Quiet server (m, w) =
      let called = read_addresses c (server_ips server) [] w in
      elim (Option-cases called.0) [
        | inl absent ↦ ground (arith, absent, read_addresses-Quiet (server_ips server) [] w)
        | inr (addresses, found) ↦
            let recorded = (write_status kube (set_addresses addresses m, called.1)).1 in
            ground (
              arith,
              found,
              read_addresses-Quiet (server_ips server) [] w,
              set_addresses_uid addresses m,
              write_status-Quiet kube timer http c count lawful uid
                  (set_addresses addresses m, called.1),
              settle-Quiet server addresses recorded,
            )
      ]

  observe-Quiet : (server : Server) → Calm (observe kube timer http c server)
  unfolding observe
  observe-Quiet server (m, w) =
      let s : Machine × W = (record m { instance_state = server.status }, w) in
      let ensured = (ensure_provider_id kube timer http c server s).1 in
      ground (arith, ensure_provider_id-Quiet server s, populate-Quiet server ensured)

  pub observe_found-Quiet :
      (next : Next (Option Server)) → Calm (observe_found kube timer http c next)
  unfolding observe_found
  observe_found-Quiet (requeue n) s = (refl, refl)
  observe_found-Quiet (proceed none) s = (refl, refl)
  observe_found-Quiet (proceed (some server)) s = observe-Quiet server s
