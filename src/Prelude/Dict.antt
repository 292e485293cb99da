-- ===== src/Prelude/Dict.antt =====
-- Go maps with string keys, as association lists: a key is listed once, in the order of insertion.
use Prim.Native.String.{String}
use mathlib.Core.Path.{◌≡◌, refl}
use mathlib.Core.Option.{Option, none, some}
use mathlib.Core.List.{List, [], ◌∷◌}
use native.Mathlib.Omega.{arith}
use cluster_api_provider_clo.Prelude.Tests.{◌==◌, ==_iff, if◌then◌else◌}

abbrev pub Dict {ℓ} : Type ℓ → Type ℓ
Dict V = List (String × V)

module _ {ℓ} {V : Type ℓ} where
  -- `v, ok := m[k]`
  unfoldable pub lookup : String → Dict V → Option V
  lookup k [] = none
  lookup k ((j, v) ∷ m) = if j == k then some v else lookup k m

  -- `m[k] = v`
  unfoldable pub insert : String → V → Dict V → Dict V
  insert k v [] = (k, v) ∷ []
  insert k v ((j, w) ∷ m) = if j == k then (k, v) ∷ m else (j, w) ∷ insert k v m

  -- `delete(m, k)`
  unfoldable pub delete : String → Dict V → Dict V
  delete k [] = []
  delete k ((j, w) ∷ m) = let rest = delete k m in if j == k then rest else (j, w) ∷ rest

  pub lookup-insert :
      (set asked : String) (value : V) (m : Dict V)
      → lookup asked (insert set value m) ≡ (if set == asked then some value else lookup asked m)
  unfolding insert lookup
  lookup-insert set asked value [] = refl
  lookup-insert set asked value ((first, w) ∷ m) = ground (
    arith,
    lookup-insert set asked value m,
    ==_iff first set,
    ==_iff first asked,
    ==_iff set asked,
  )

  pub lookup-delete :
      (k j : String) (m : Dict V) → lookup j (delete k m) ≡ (if k == j then none else lookup j m)
  unfolding lookup delete
  lookup-delete k j [] = ground arith
  lookup-delete k j ((i, w) ∷ m) =
      ground (arith, ==_iff k j, ==_iff i k, ==_iff i j, lookup-delete k j m)

  -- No key is listed twice, as in a map.
  abbrev pub NodupKeys : Dict V → Type ℓ
  NodupKeys [] = Unit
  NodupKeys ((k, v) ∷ m) = (lookup k m ≡ none) × NodupKeys m

  pub insert-NodupKeys : (k : String) (v : V) (m : Dict V) → NodupKeys m → NodupKeys (insert k v m)
  unfolding insert lookup
  insert-NodupKeys k v [] h = (refl, tt)
  insert-NodupKeys k v ((j, w) ∷ m) h =
      ground (arith, ==_iff j k, ==_iff k j, insert-NodupKeys k v m h.1, lookup-insert k j v m)

  pub delete-NodupKeys : (k : String) (m : Dict V) → NodupKeys m → NodupKeys (delete k m)
  unfolding delete lookup
  delete-NodupKeys k [] h = tt
  delete-NodupKeys k ((j, w) ∷ m) h = ground (arith, delete-NodupKeys k m h.1, lookup-delete k j m)

  -- Every entry is found under its key.
  abbrev pub Found : Dict V → Dict V → Type ℓ
  Found m [] = Unit
  Found m ((k, v) ∷ entries) = (lookup k m ≡ some v) × Found m entries

  pub Found-cons :
      (k : String) (v : V) (m entries : Dict V)
      → lookup k entries ≡ none
      → Found m entries
      → Found ((k, v) ∷ m) entries
  unfolding lookup
  Found-cons k v m [] h f = tt
  Found-cons k v m ((j, w) ∷ entries) h f =
      (ground (arith, ==_iff k j, ==_iff j k), Found-cons k v m entries (ground arith) f.1)

  pub Found-self : (m : Dict V) → NodupKeys m → Found m m
  unfolding lookup
  Found-self [] h = tt
  Found-self ((k, v) ∷ m) h =
      (ground (arith, ==_iff k k), Found-cons k v m m h.0 (Found-self m h.1))

  pub Found-delete :
      (k : String) (m entries : Dict V)
      → lookup k entries ≡ none
      → Found m entries
      → Found (delete k m) entries
  unfolding lookup
  Found-delete k m [] h f = tt
  Found-delete k m ((j, w) ∷ entries) h f = (
    ground (arith, ==_iff k j, ==_iff j k, lookup-delete k j m),
    Found-delete k m entries (ground arith) f.1,
  )
