-- ===== src/Csi/Volume/Size.antt =====
-- The sizes that `CreateVolume` and `ControllerExpandVolume` ask for.
use cluster_api_provider_clo.Prelude.{
  ℕ, ◌≡◌, ◌≤◌, ◌<◌, ◌⊎◌, ◌↔◌, Option, some, Bool-cases, inl, inr, ltb, ◌||◌, if◌then◌else◌, arith,
  pos, ok, err,
}
use cluster_api_provider_clo.Csi.Types.{CapacityRange, out_of_range, status}
use cluster_api_provider_clo.Csi.Volume.{min_volume_size, max_volume_size, volume_size}

abbrev pub range : ℕ → ℕ → Option CapacityRange
range required limit = some (record { required_bytes = pos required; limit_bytes = pos limit })

-- A request with a positive size and a positive limit is refused exactly where it asks for more
-- than its limit or for more than 10 TB.
pub volume_size_refused :
    (required limit : ℕ)
    → 0 < required
    → 0 < limit
    → (volume_size (range required limit) ≡ err (status out_of_range))
      ↔ ((limit < required) ⊎ (max_volume_size < required))
unfolding volume_size
volume_size_refused required limit h k = ground arith

-- A positive limit below 1 GB is not kept: a request for a positive size within such a limit is
-- accepted with 1 GB, which is above it.
pub volume_size_over_limit :
    (required limit : ℕ)
    → 0 < required
    → required ≤ limit
    → limit < min_volume_size
    → (size : ℕ) × (volume_size (range required limit) ≡ ok size) × (limit < size)
unfolding volume_size
volume_size_over_limit required limit p h k = (min_volume_size, ground arith, k)

-- A request with a positive size and a positive limit is refused where it asks for more than its
-- limit or for more than 10 TB, and is otherwise accepted with what it asks for, or with 1 GB where
-- it asks for less, be that within the limit or not.
pub volume_size_decides :
    (required limit : ℕ)
    → 0 < required
    → 0 < limit
    → (((limit < required) ⊎ (max_volume_size < required))
        × (volume_size (range required limit) ≡ err (status out_of_range)))
      ⊎ ((required ≤ limit)
          × (required ≤ max_volume_size)
          × (volume_size (range required limit)
              ≡ ok (if ltb required min_volume_size then min_volume_size else required)))
unfolding volume_size
volume_size_decides required limit h k =
    elim (Bool-cases (ltb limit required || ltb max_volume_size required)) [
      | inl refused ↦ inl (ground arith, ground arith)
      | inr accepted ↦ inr (ground arith, ground arith, ground arith)
    ]
