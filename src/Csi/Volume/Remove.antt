-- ===== src/Csi/Volume/Remove.antt =====
-- `DeleteVolume` never removes a drive that is mounted.
use cluster_api_provider_clo.Prelude.{
  ◌≡◌, ◌≢◌, ◌⊎◌, Bool-cases, contains_text, true, String, some, List, ==_iff, ok, err, arith,
  Result-cases, inl, inr,
}
use cluster_api_provider_clo.CloudSdk.{ApiError, Drive, SdkClient}
use cluster_api_provider_clo.Csi.Types.{Driver}
use cluster_api_provider_clo.Csi.Volume.{says_not_found, delete_found, delete_volume}
use cluster_api_provider_clo.Csi.Volume.Store.{IsLawful, drive_by_uuid}

module _ {W : Type 0} (client : SdkClient W) (drives : W → List Drive)
    (lawful : IsLawful client drives) (d : Driver W) (set : d.cloud_client ≡ some client) where
  -- Over a drives API that keeps the laws of Csi/Volume/Store.antt, for a driver with a client: a
  -- `DeleteVolume` of a drive that the service holds as mounted leaves all drives as they are, whatever
  -- the calls answer. It reports success only where the read of the drive failed with a text that
  -- holds "404" or "not found".
  pub delete_volume_spares_mounted :
      (volume_id : String) (drive : Drive) (w : W)
      → drive_by_uuid volume_id (drives w) ≡ some drive
      → drive.status ≡ "mounted"
      → (drives (delete_volume d volume_id w).1 ≡ drives w)
        × (((delete_volume d volume_id w).0 ≢ ok tt)
            ⊎ ((e : ApiError) × ((client.drives.get volume_id w).0 ≡ err e)
                × ((contains_text e.message "404" ≡ true)
                    ⊎ (contains_text e.message "not found" ≡ true))))
  unfolding delete_volume delete_found
  delete_volume_spares_mounted volume_id drive w held mounted =
      elim (Result-cases (client.drives.get volume_id w).0) [
        | inl (answer, e) ↦ (
          ground (
            arith,
            e,
            ==_iff drive.status "mounted",
            lawful.get_reads volume_id w,
            lawful.get_keeps volume_id w,
          ),
          inl (λ done.
              ground (arith, e, done, ==_iff drive.status "mounted", lawful.get_reads volume_id w)),
        )
        | inr (failure, e) ↦ (
          ground (arith, e, lawful.get_keeps volume_id w),
          elim (Bool-cases (says_not_found failure)) [
            | inl says ↦ inr (failure, e, ground (arith, says))
            | inr other ↦ inl (λ done. ground (arith, e, other, done))
          ],
        )
      ]
