-- ===== src/Csi/Volume/Store.antt =====
-- What the drive calls are relied on for, as laws over the list of drives that the service holds.
use cluster_api_provider_clo.Prelude.{
  ◌≡◌, String, Option, none, some, List, [], ◌∷◌, ◌++◌, ◌==◌, if◌then◌else◌, Result, ok, err,
}
use cluster_api_provider_clo.CloudSdk.{ApiError, Drive, Tag, SdkClient}

unfoldable pub drive_by_uuid : String → List Drive → Option Drive
drive_by_uuid uuid [] = none
drive_by_uuid uuid (drive ∷ drives) =
    if drive.uuid == uuid then some drive else drive_by_uuid uuid drives

-- A listing that succeeds shows the drives.
abbrev pub Lists : List Drive → Result ApiError (List Drive) → Type 0
Lists held (ok drives) = drives ≡ held
Lists held (err e) = Unit

-- A drive that is read is one that is held.
abbrev pub Reads : Option Drive → Result ApiError Drive → Type 0
Reads held (ok drive) = held ≡ some drive
Reads held (err e) = Unit

-- A POST of one drive that succeeds answers with the new drive, of the name that was sent, and
-- appends it.
abbrev pub Creates : Drive → List Drive → List Drive → Result ApiError (List Drive) → Type 0
Creates body before after (ok []) = ⊥
Creates body before after (ok (drive ∷ drives)) =
    (after ≡ before ++ (drive ∷ [])) × (drive.name ≡ body.name)
Creates body before after (err e) = after ≡ before

-- A DELETE that succeeds leaves no drive of the UUID; one that fails changes nothing.
abbrev pub Deletes : String → List Drive → List Drive → Result ApiError (Unit {0}) → Type 0
Deletes uuid before after (ok _) = drive_by_uuid uuid after ≡ none
Deletes uuid before after (err e) = after ≡ before

pub record IsLawful {W : Type 0} (client : SdkClient W) (drives : W → List Drive) : Type 0 where
  pub list_shows : (w : W) → Lists (drives w) (client.drives.list w).0
  pub list_keeps : (w : W) → drives (client.drives.list w).1 ≡ drives w
  pub get_reads :
      (uuid : String) (w : W) → Reads (drive_by_uuid uuid (drives w)) (client.drives.get uuid w).0
  pub get_keeps : (uuid : String) (w : W) → drives (client.drives.get uuid w).1 ≡ drives w
  pub create_adds :
      (body : Drive) (w : W)
      → Creates body
          (drives w)
          (drives (client.drives.create (body ∷ []) w).1)
          (client.drives.create (body ∷ []) w).0
  pub delete_removes :
      (uuid : String) (w : W)
      → Deletes uuid
          (drives w)
          (drives (client.drives.delete uuid w).1)
          (client.drives.delete uuid w).0
  pub tag_list_keeps : (w : W) → drives (client.tags.list w).1 ≡ drives w
  pub tag_update_keeps :
      (uuid : String) (body : Tag) (w : W) → drives (client.tags.update uuid body w).1 ≡ drives w
  pub tag_create_keeps :
      (bodies : List Tag) (w : W) → drives (client.tags.create bodies w).1 ≡ drives w
