-- ===== src/Csi/Volume/Create.antt =====
-- `CreateVolume` makes one drive for a name, however often it is called.
use cluster_api_provider_clo.Prelude.{
  ℕ, ◌≡◌, refl, sym, ap, subst, ◌∙◌, ◌≢◌, String, true, false, Option, some, none, List, [], ◌∷◌,
  ◌++◌, ==_iff, Result, ok, err, arith, Result-cases, inl, inr,
}
use cluster_api_provider_clo.CloudSdk.{ApiError, Drive, SdkClient}
use cluster_api_provider_clo.Tags.Frame.{ensure_tags_keeps}
use cluster_api_provider_clo.Csi.Types.{Driver, CreateVolumeRequest, Volume}
use cluster_api_provider_clo.Csi.Tagging.{tag_drive, drive_tags}
use cluster_api_provider_clo.Csi.Volume.{
  volume_size, all_valid, find_drive, find_drive_by_name, volume_response, new_drive, create_drive,
  create_or_reuse, create_volume, is_empty,
}
use cluster_api_provider_clo.Csi.Volume.Store.{IsLawful}

find_drive-snoc :
    (name : String) (drives : List Drive) (drive : Drive)
    → find_drive name drives ≡ none
    → drive.name ≡ name
    → find_drive name (drives ++ (drive ∷ [])) ≡ some drive
unfolding find_drive
find_drive-snoc name [] drive h e = ground (arith, ==_iff drive.name name)
find_drive-snoc name (d ∷ drives) drive h e = ground (arith, find_drive-snoc name drives drive)

module _ {W : Type 0} (client : SdkClient W) (drives : W → List Drive)
    (lawful : IsLawful client drives) (d : Driver W) (set : d.cloud_client ≡ some client) where
  tag_drive_keeps : (uuid name : String) (w : W) → drives (tag_drive d uuid name w) ≡ drives w
  unfolding tag_drive
  tag_drive_keeps uuid name w = ground (
    arith,
    ensure_tags_keeps client.tags drives lawful.tag_list_keeps lawful.tag_update_keeps
        lawful.tag_create_keeps (drive_tags d.cluster_name name) uuid w,
  )

  -- What a creation leaves behind: the volume of the response is that of the first drive of the
  -- name.
  abbrev Leaves : CreateVolumeRequest → Volume → W → Type 0
  Leaves req volume w =
      (drive : Drive) × (find_drive req.name (drives w) ≡ some drive)
      × (volume ≡ volume_response d req drive)

  create_drive-Leaves :
      (req : CreateVolumeRequest) (size : ℕ) (volume : Volume) (w : W)
      (answer : Result ApiError (List Drive))
      → (client.drives.create (new_drive d req size ∷ []) w).0 ≡ answer
      → find_drive req.name (drives w) ≡ none
      → (create_drive d client req size w).0 ≡ ok volume
      → Leaves req volume (create_drive d client req size w).1
  unfolding create_drive
  create_drive-Leaves req size volume w (ok []) e absent h = ground (arith, e)
  create_drive-Leaves req size volume w (ok (drive ∷ more)) e absent h =
      let w' = (client.drives.create (new_drive d req size ∷ []) w).1 in
      (
        drive,
        ground (
          arith,
          e,
          lawful.create_adds (new_drive d req size) w,
          tag_drive_keeps drive.uuid req.name w',
          find_drive-snoc req.name (drives w) drive absent,
        ),
        ground (arith, e),
      )
  create_drive-Leaves req size volume w (err failure) e absent h = ground (arith, e)

  create_or_reuse-Leaves :
      (req : CreateVolumeRequest) (size : ℕ) (volume : Volume) (w : W) (found : Option Drive)
      → find_drive req.name (drives w) ≡ found
      → (create_or_reuse d client req size found w).0 ≡ ok volume
      → Leaves req volume (create_or_reuse d client req size found w).1
  unfolding create_or_reuse
  create_or_reuse-Leaves req size volume w none e h =
      create_drive-Leaves req size volume w _ refl e h
  create_or_reuse-Leaves req size volume w (some drive) e h = (drive, e, ground arith)

  -- The request passes the tests in front of the calls.
  abbrev pub IsAccepted : CreateVolumeRequest → ℕ → Type 0
  IsAccepted req size =
      (req.name ≢ "")
      × (is_empty req.volume_capabilities ≡ false)
      × (all_valid d.volume_caps req.volume_capabilities ≡ true)
      × (volume_size req.capacity_range ≡ ok size)

  create_volume-IsAccepted :
      (req : CreateVolumeRequest) (volume : Volume) (w : W)
      → (create_volume d req w).0 ≡ ok volume
      → (size : ℕ) × IsAccepted req size
  unfolding create_volume
  create_volume-IsAccepted req volume w h = elim (Result-cases (volume_size req.capacity_range)) [
    | inl (size, e) ↦ (size, ground (arith, e, ==_iff req.name ""))
    | inr (failure, e) ↦ ground (arith, e)
  ]

  create_volume_calls :
      (req : CreateVolumeRequest) (size : ℕ) (listed : List Drive) (w : W)
      → IsAccepted req size
      → (client.drives.list w).0 ≡ ok listed
      → create_volume d req w
        ≡ create_or_reuse d client req size (find_drive req.name listed) (client.drives.list w).1
  unfolding create_volume find_drive_by_name
  create_volume_calls req size listed w a e = ground (arith, e, ==_iff req.name "")

  create_volume_unlisted :
      (req : CreateVolumeRequest) (volume : Volume) (failure : ApiError) (w : W)
      → (client.drives.list w).0 ≡ err failure
      → (create_volume d req w).0 ≢ ok volume
  unfolding create_volume find_drive_by_name
  create_volume_unlisted req volume failure w e h = ground (arith, e)

  listed_same :
      (name : String) (listed : List Drive) (w : W)
      → (client.drives.list w).0 ≡ ok listed
      → find_drive name (drives (client.drives.list w).1) ≡ find_drive name listed
  listed_same name listed w e = ground (arith, lawful.list_shows w, lawful.list_keeps w)

  create_volume-Leaves :
      (req : CreateVolumeRequest) (volume : Volume) (size : ℕ) (w : W)
      → IsAccepted req size
      → (create_volume d req w).0 ≡ ok volume
      → Leaves req volume (create_volume d req w).1
  create_volume-Leaves req volume size w a h = elim (Result-cases (client.drives.list w).0) [
    | inr (failure, e) ↦ absurd (create_volume_unlisted req volume failure w e h)
    | inl (listed, e) ↦
        subst (λ r. r.0 ≡ ok volume → Leaves req volume r.1)
          (sym (create_volume_calls req size listed w a e))
          (create_or_reuse-Leaves req size volume (client.drives.list w).1 _
            (listed_same req.name listed w e))
          h
  ]

  reuse_lem :
      (req : CreateVolumeRequest) (size : ℕ) (drive : Drive) (w : W)
      → create_or_reuse d client req size (some drive) w ≡ (ok (volume_response d req drive), w)
  unfolding create_or_reuse
  reuse_lem req size drive w = refl

  -- Over a drives API that keeps the laws of Csi/Volume/Store.antt, for a driver with a client:
  -- after a call of `CreateVolume` that succeeded, and if the drives can be listed then, a second
  -- call with the same request only lists the drives, and answers with the same volume.
  pub create_volume_twice :
      (req : CreateVolumeRequest) (volume : Volume) (w : W)
      → (create_volume d req w).0 ≡ ok volume
      → (client.drives.list (create_volume d req w).1).0 ≡ ok (drives (create_volume d req w).1)
      → create_volume d req (create_volume d req w).1
        ≡ (ok volume, (client.drives.list (create_volume d req w).1).1)
  create_volume_twice req volume w h listed =
      let (size, a) = create_volume-IsAccepted req volume w h in
      let w' = (create_volume d req w).1 in
      let (drive, found, same) = create_volume-Leaves req volume size w a h in
      create_volume_calls req size (drives w') w' a listed
      ∙ ap (λ f. create_or_reuse d client req size f (client.drives.list w').1) found
      ∙ reuse_lem req size drive (client.drives.list w').1
      ∙ ap (λ v. (ok v, (client.drives.list w').1)) (sym same)
