-- ===== src/Cloud/Servers/Store.antt =====
-- What `CreateServer` and `DeleteServer` rely on the drive calls for, as laws over the drives that
-- the service holds.
use cluster_api_provider_clo.Prelude.{
  ◌≡◌, ◌⊎◌, inl, inr, subst, sym, ap, ◌∙◌, ℕ, String, Bool, true, false, List, [], ◌∷◌, ◌++◌, ◌==◌,
  if◌then◌else◌, Result, ok, err, Result-cases, arith,
}
use cluster_api_provider_clo.CloudSdk.{ApiError, Drive}
use cluster_api_provider_clo.Cloud.Drives.{delete_drive}
use cluster_api_provider_clo.Cloud.Types.{Client, Timer, HttpApi, HttpRequest}

-- The drives less those of a UUID.
unfoldable pub without_drive : String → List Drive → List Drive
without_drive uuid [] = []
without_drive uuid (drive ∷ drives) =
    let rest = without_drive uuid drives in if drive.uuid == uuid then rest else drive ∷ rest

-- No drive has the UUID.
unfoldable pub is_unused : String → List Drive → Bool
is_unused uuid [] = true
is_unused uuid (drive ∷ drives) = if drive.uuid == uuid then false else is_unused uuid drives

-- A clone that succeeds is a new drive under an unused UUID; one that fails adds none.
abbrev pub Clones : List Drive → List Drive → Result ApiError Drive → Type 0
Clones before after (ok drive) =
    (is_unused drive.uuid before ≡ true) × (after ≡ before ++ (drive ∷ []))
Clones before after (err e) = after ≡ before

-- A drive that is read is the one that was asked for.
abbrev pub IsAbout : {E : Type 0} → String → Result E Drive → Type 0
IsAbout uuid (ok drive) = drive.uuid ≡ uuid
IsAbout uuid (err e) = Unit

-- A deletion that succeeds removes the drive; one that fails has removed it or not.
abbrev pub Deletes : {E A : Type 0} → String → List Drive → List Drive → Result E A → Type 0
Deletes uuid before after (ok _) = after ≡ without_drive uuid before
Deletes uuid before after (err e) = (after ≡ before) ⊎ (after ≡ without_drive uuid before)

-- A run of deletions, of these UUIDs in turn, leads from one state to another. In that each drive was
-- removed from those that were held, or the call of its deletion failed.
unfoldable pub Removed :
    {W : Type 0} → Client W → (W → List Drive) → List String → List Drive → W → W → Type 0
Removed c drives [] held w last = (last ≡ w) × (drives last ≡ held)
Removed c drives (uuid ∷ uuids) held w last =
    Removed c drives uuids (without_drive uuid held) (c.sdk.drives.delete uuid w).1 last
    ⊎ (((e : ApiError) × ((c.sdk.drives.delete uuid w).0 ≡ err e))
        × Removed c drives uuids held (c.sdk.drives.delete uuid w).1 last)

pub record IsLawful {W : Type 0} (timer : Timer W) (http : HttpApi W) (c : Client W)
    (drives : W → List Drive) : Type 0 where
  pub clone_adds :
      (source : String) (body : Drive) (w : W)
      → Clones
          (drives w)
          (drives (c.sdk.drives.clone source body w).1)
          (c.sdk.drives.clone source body w).0
  pub get_answers : (uuid : String) (w : W) → IsAbout uuid (c.sdk.drives.get uuid w).0
  pub get_keeps : (uuid : String) (w : W) → drives (c.sdk.drives.get uuid w).1 ≡ drives w
  pub delete_removes :
      (uuid : String) (w : W)
      → Deletes uuid
          (drives w)
          (drives (c.sdk.drives.delete uuid w).1)
          (c.sdk.drives.delete uuid w).0
  pub tick_keeps : (started n : ℕ) (w : W) → drives (timer.await_tick started n w).1 ≡ drives w
  pub request_keeps :
      (request : HttpRequest) (w : W) → drives (http.do_request request w).1 ≡ drives w

Removed-step :
    {W : Type 0} (c : Client W) (drives : W → List Drive) (uuid : String) (uuids : List String)
    (held : List Drive) (w last : W)
    → Deletes uuid (drives w) (drives (c.sdk.drives.delete uuid w).1) (c.sdk.drives.delete uuid w).0
    → drives w ≡ held
    → ((left : List Drive)
        → drives (c.sdk.drives.delete uuid w).1 ≡ left
        → Removed c drives uuids left (c.sdk.drives.delete uuid w).1 last)
    → Removed c drives (uuid ∷ uuids) held w last
unfolding Removed
Removed-step c drives uuid uuids held w last law same rest =
    let called = c.sdk.drives.delete uuid w in
    let Wanted : Result ApiError (Unit {0}) → Type 0 = Deletes uuid (drives w) (drives called.1) in
    elim (Result-cases called.0) [
      | inl (_, done) ↦
          inl
            (rest (without_drive uuid held) (subst Wanted done law ∙ ap (without_drive uuid) same))
      | inr (e, failed) ↦ elim (subst Wanted failed law) [
        | inl kept ↦ inr ((e, failed), rest held (kept ∙ same))
        | inr gone ↦ inl (rest (without_drive uuid held) (gone ∙ ap (without_drive uuid) same))
      ]
    ]

pub delete_drive_state :
    {W : Type 0} (c : Client W) (uuid : String) (w : W)
    → (delete_drive c uuid w).1 ≡ (c.sdk.drives.delete uuid w).1
unfolding delete_drive
delete_drive_state c uuid w = ground arith

-- The step of a loop that goes on with `DeleteDrive`.
pub Removed-delete_drive :
    {W : Type 0} (c : Client W) (drives : W → List Drive) (uuid : String) (uuids : List String)
    (loop : W → W) (held : List Drive) (w : W)
    → Deletes uuid (drives w) (drives (c.sdk.drives.delete uuid w).1) (c.sdk.drives.delete uuid w).0
    → drives w ≡ held
    → ((left : List Drive) (w' : W) → drives w' ≡ left → Removed c drives uuids left w' (loop w'))
    → Removed c drives (uuid ∷ uuids) held w (loop (delete_drive c uuid w).1)
Removed-delete_drive c drives uuid uuids loop held w law same rest =
    let called = (c.sdk.drives.delete uuid w).1 in
    subst (λ w'. Removed c drives (uuid ∷ uuids) held w (loop w'))
      (sym (delete_drive_state c uuid w))
      (Removed-step c drives uuid uuids held w (loop called) law same (λ left. rest left called))
