-- ===== src/Cloud/Servers/Cleanup.antt =====
-- The drives that `CreateServer` leaves behind.
use cluster_api_provider_clo.Prelude.{
  ℕ, ◌+◌, ◌≡◌, ◌⊎◌, String, List, [], ◌∷◌, ◌++◌, length, Result, ok, err,
}
use cluster_api_provider_clo.CloudSdk.{Drive, Server}
use cluster_api_provider_clo.GoError.{Error}
use cluster_api_provider_clo.Cloud.Types.{Client, Timer, HttpApi}
use cluster_api_provider_clo.Cloud.Servers.Store.{IsLawful, Removed}
use cluster_api_provider_clo.Cloud.Servers.Holds.{Holds}

module _ {W : Type 0} (timer : Timer W) (http : HttpApi W) (c : Client W) (drives : W → List Drive)
    (lawful : IsLawful timer http c drives) where
  -- What a failure leaves behind: `held` are the drives from before, with one more for each UUID of
  -- `cloned`. The run ends with the deletions of those of `cloned`, from a state with the drives of
  -- `held` and maybe another one that was created.
  abbrev pub LeftOver : List Drive → W → Type 0
  LeftOver before last =
      (cloned : List String) × (held : List Drive) × (when : W) × Holds before cloned held
      × (Removed c drives cloned held when last
          ⊎ ((created : Drive) × Removed c drives cloned (held ++ (created ∷ [])) when last))

  -- What the loop over the disks leaves behind.
  abbrev AfterAll : List Drive → ℕ → W → Result Error (List String) → Type 0
  AfterAll before disks last (ok cloned) =
      Holds before cloned (drives last) × (length cloned ≡ disks)
  AfterAll before disks last (err e) = LeftOver before last

  -- What `CreateServer` leaves behind.
  abbrev pub AfterCreate : List Drive → ℕ → W → Result Error Server → Type 0
  AfterCreate before disks last (ok server) = length (drives last) ≡ length before + disks
  AfterCreate before disks last (err e) = LeftOver before last
