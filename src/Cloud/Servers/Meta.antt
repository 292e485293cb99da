-- ===== src/Cloud/Servers/Meta.antt =====
-- The metadata of the document that `CreateServer` sends.
use cluster_api_provider_clo.Prelude.{
  ◌≡◌, refl, String, Option, some, none, List, [], ◌∷◌, ==_iff, arith,
}
use cluster_api_provider_clo.Prelude.Dict.{
  Dict, lookup, insert, lookup-insert, NodupKeys, insert-NodupKeys,
}
use cluster_api_provider_clo.Cloud.Servers.Build.{ServerSpec, insert_all, cloud_init, build_server}

abbrev or_else : Option String → Option String → Option String
or_else none other = other
or_else (some v) other = some v

pub insert_all-NodupKeys :
    (entries m : Dict String) → NodupKeys m → NodupKeys (insert_all entries m)
unfolding insert_all
insert_all-NodupKeys [] m h = h
insert_all-NodupKeys ((k, v) ∷ entries) m h =
    insert_all-NodupKeys entries (insert k v m) (insert-NodupKeys k v m h)

lookup-insert_all :
    (asked : String) (entries m : Dict String)
    → NodupKeys entries
    → lookup asked (insert_all entries m) ≡ or_else (lookup asked entries) (lookup asked m)
unfolding insert_all lookup
lookup-insert_all asked [] m h = refl
lookup-insert_all asked ((k, v) ∷ entries) m h = ground (
  arith,
  h.0,
  ==_iff k asked,
  lookup-insert_all asked entries (insert k v m) h.1,
  lookup-insert k asked v m,
)

-- An entry of the spec's metadata is sent, whatever the cloud-init entries are.
pub build_server_meta :
    (spec : ServerSpec) (cloned : List String) (k v : String)
    → NodupKeys spec.meta
    → lookup k spec.meta ≡ some v
    → lookup k (build_server spec cloned).meta ≡ some v
unfolding build_server
build_server_meta spec cloned k v nodup h =
    ground (arith, h, lookup-insert_all k spec.meta (cloud_init spec.bootstrap_data) nodup)
