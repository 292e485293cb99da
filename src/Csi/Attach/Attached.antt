-- ===== src/Csi/Attach/Attached.antt =====
-- What publishing and unpublishing a volume leave in the drive lists of the servers.
use cluster_api_provider_clo.Prelude.{
  ◌≡◌, refl, ◌≢◌, true, false, contains_text, err, inl, inr, String, Option, some, none, List, [],
  ◌∷◌, ==_iff, arith, Option-cases, Result-cases,
}
use cluster_api_provider_clo.CloudSdk.{ApiError, Drive, ServerDrive, SdkClient}
use cluster_api_provider_clo.Cloud.Drives.{has_status}
use cluster_api_provider_clo.Csi.Attach.{
  attached_channel, remaining, first_other, with_volume, detach_old, release_others,
}
use cluster_api_provider_clo.Csi.Attach.Store.{IsLawful}

-- The drives of the node after the volume was published.
pub published : String → List ServerDrive → List ServerDrive
published volume_id sds = elim (attached_channel volume_id sds) [
  | some channel ↦ sds
  | none ↦ with_volume volume_id sds
]

first_other-ne :
    (node_id other : String) (mounts : List String)
    → first_other node_id mounts ≡ some other
    → other ≢ node_id
unfolding first_other
first_other-ne node_id other [] h = cc
first_other-ne node_id other (mount ∷ mounts) h =
    ground (arith, ==_iff mount node_id, first_other-ne node_id other mounts)

pub attached_channel-remaining :
    (volume_id : String) (sds : List ServerDrive)
    → attached_channel volume_id (remaining volume_id sds) ≡ none
unfolding attached_channel remaining
attached_channel-remaining volume_id [] = refl
attached_channel-remaining volume_id (sd ∷ sds) =
    ground (arith, attached_channel-remaining volume_id sds)

module _ {W : Type 0} (client : SdkClient W) (drives_of : String → W → Option (List ServerDrive))
    (lawful : IsLawful client drives_of) where
  detach_old_keeps :
      (volume_id mount other : String) (w : W)
      → mount ≢ other
      → drives_of other (detach_old client volume_id mount w).1 ≡ drives_of other w
  unfolding detach_old
  detach_old_keeps volume_id mount other w h = elim (Result-cases (client.servers.get mount w).0) [
    | inl (server, e) ↦ ground (
      arith,
      e,
      lawful.get_keeps mount other w,
      lawful.update_keeps mount other (record server { drives = remaining volume_id server.drives })
          (client.servers.get mount w).1 h,
    )
    | inr (failure, e) ↦ ground (arith, e, lawful.get_keeps mount other w)
  ]

  release_others_keeps :
      (volume_id node_id : String) (drive : Drive) (w : W)
      → drives_of node_id (release_others client volume_id node_id drive w).1 ≡ drives_of node_id w
  unfolding release_others
  release_others_keeps volume_id node_id drive w =
      elim (Option-cases (first_other node_id drive.mounted_on)) [
        | inl e ↦ ground (arith, e)
        | inr (mount, e) ↦ ground (
          arith,
          e,
          first_other-ne node_id mount drive.mounted_on e,
          detach_old_keeps volume_id mount node_id w
              (first_other-ne node_id mount drive.mounted_on e),
        )
      ]

  -- A read of the server failed with a text that holds "404", but with another status.
  abbrev pub Misread : String → Type 0
  Misread node_id =
      (when : W) × (e : ApiError) × ((client.servers.get node_id when).0 ≡ err e)
      × (contains_text e.message "404" ≡ true)
      × (has_status 404 e ≡ false)
