-- ===== src/Cloud/Servers/Find.antt =====
-- What `FindServerByNameOrMeta` finds in a listing.
use cluster_api_provider_clo.Prelude.{
  ◌≡◌, ◌≢◌, ◌⊎◌, inl, inr, refl, String, Option, some, none, List, [], ◌∷◌, ==_iff, All, ok, arith,
  Option-cases,
}
use cluster_api_provider_clo.Prelude.Dict.{lookup}
use cluster_api_provider_clo.CloudSdk.{Server}
use cluster_api_provider_clo.Cloud.Types.{Client}
use cluster_api_provider_clo.Cloud.Servers.{
  find_by_meta, find_by_name, find_server, find_server_by_name_or_meta,
}

-- The server stands in the list.
abbrev pub Listed : Server → List Server → Type 0
Listed server [] = ⊥
Listed server (first ∷ rest) = (first ≡ server) ⊎ Listed server rest

-- The server is the machine's own by its metadata.
abbrev pub IsOwn : String → Server → Type 0
IsOwn machine_uid server = lookup "machine-uid" server.meta ≡ some machine_uid

find_by_meta_sound :
    (machine_uid : String) (servers : List Server) (server : Server)
    → find_by_meta machine_uid servers ≡ some server
    → Listed server servers × IsOwn machine_uid server
unfolding find_by_meta
find_by_meta_sound machine_uid [] server h = ground arith
find_by_meta_sound machine_uid (first ∷ rest) server h =
    elim (Option-cases (lookup "machine-uid" first.meta)) [
      | inl absent ↦ ground (arith, find_by_meta_sound machine_uid rest server)
      | inr (uid, e) ↦
          ground (arith, e, ==_iff uid machine_uid, find_by_meta_sound machine_uid rest server)
    ]

find_by_meta-none :
    (machine_uid : String) (servers : List Server)
    → find_by_meta machine_uid servers ≡ none
    → All (λ server. lookup "machine-uid" server.meta ≢ some machine_uid) servers
unfolding find_by_meta
find_by_meta-none machine_uid [] h = tt
find_by_meta-none machine_uid (first ∷ rest) h =
    elim (Option-cases (lookup "machine-uid" first.meta)) [
      | inl absent ↦ ground (arith, absent, find_by_meta-none machine_uid rest)
      | inr (uid, e) ↦ ground (arith, e, ==_iff uid machine_uid, find_by_meta-none machine_uid rest)
    ]

find_by_name_sound :
    (name : String) (servers : List Server) (server : Server)
    → find_by_name name servers ≡ some server
    → Listed server servers × (server.name ≡ name)
unfolding find_by_name
find_by_name_sound name [] server h = ground arith
find_by_name_sound name (first ∷ rest) server h =
    ground (arith, ==_iff first.name name, find_by_name_sound name rest server)

find_by_name-none :
    (name : String) (servers : List Server)
    → find_by_name name servers ≡ none
    → All (λ server. server.name ≢ name) servers
unfolding find_by_name
find_by_name-none name [] h = tt
find_by_name-none name (first ∷ rest) h =
    ground (arith, ==_iff first.name name, find_by_name-none name rest)

-- No server is the machine's own.
abbrev pub NoneOwn : String → List Server → Type 0
NoneOwn machine_uid = All (λ server. lookup "machine-uid" server.meta ≢ some machine_uid)

-- What an answer says of the servers: one that is the machine's own goes before one of its name.
abbrev pub Finds : String → String → List Server → Option Server → Type 0
Finds name machine_uid servers none =
    NoneOwn machine_uid servers × All (λ server. server.name ≢ name) servers
Finds name machine_uid servers (some server) =
    Listed server servers
    × (IsOwn machine_uid server ⊎ ((server.name ≡ name) × NoneOwn machine_uid servers))

find_by_name-Finds :
    (name machine_uid : String) (servers : List Server) (found : Option Server)
    → NoneOwn machine_uid servers
    → find_by_name name servers ≡ found
    → Finds name machine_uid servers found
find_by_name-Finds name machine_uid servers none others h =
    (others, find_by_name-none name servers h)
find_by_name-Finds name machine_uid servers (some server) others h =
    let (listed, named) = find_by_name_sound name servers server h in (listed, inr (named, others))

find_server_lem :
    (name machine_uid : String) (servers : List Server)
    → machine_uid ≢ ""
    → find_server name machine_uid servers ≡ (elim (find_by_meta machine_uid servers) [
      | some server ↦ some server
      | none ↦ find_by_name name servers
    ])
unfolding find_server
find_server_lem name machine_uid servers set = ground (arith, ==_iff machine_uid "")

pub find_server-Finds :
    (name machine_uid : String) (servers : List Server)
    → machine_uid ≢ ""
    → Finds name machine_uid servers (find_server name machine_uid servers)
find_server-Finds name machine_uid servers set =
    rw (find_server_lem name machine_uid servers set)
      (elim (Option-cases (find_by_meta machine_uid servers)) [
        | inl absent ↦ rw absent (
            find_by_name-Finds name machine_uid servers _
              (find_by_meta-none machine_uid servers absent) refl)
        | inr (server, e) ↦ rw e (
            let (listed, own) = find_by_meta_sound machine_uid servers server e in
            (listed, inl own))
      ])

-- For a machine UID that is not empty, what `FindServerByNameOrMeta` answers after a listing: a
-- server of the listing that carries the UID, or one that has the name where none carries the UID;
-- nothing only if no server of the listing carries the UID or has the name.
pub find_server_by_name_or_meta-Finds :
    {W : Type 0} (c : Client W) (name machine_uid : String) (servers : List Server) (w : W)
    → machine_uid ≢ ""
    → (c.sdk.servers.list w).0 ≡ ok servers
    → (found : Option Server) × ((find_server_by_name_or_meta c name machine_uid w).0 ≡ ok found)
      × Finds name machine_uid servers found
unfolding find_server_by_name_or_meta
find_server_by_name_or_meta-Finds c name machine_uid servers w set listed = (
  find_server name machine_uid servers,
  ground (arith, listed),
  find_server-Finds name machine_uid servers set,
)
