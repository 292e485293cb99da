-- ===== src/Cloud/Servers/Remove.antt =====
-- What `DeleteServer` does to the drives, and what `GetServer` makes of errors.
use mathlib.Core.List.{filter_map}
use mathlib.Core.Option
use cluster_api_provider_clo.Prelude.{
  ◌≡◌, ◌⊎◌, inl, inr, refl, sym, subst, ◌∙◌, String, true, false, Option, some, none, List, [], ◌∷◌,
  contains_text, Result, ok, err, arith, Result-cases,
}
use cluster_api_provider_clo.CloudSdk.{ApiError, Drive, Server, ServerDrive}
use cluster_api_provider_clo.GoError.{Error}
use cluster_api_provider_clo.Cloud.Types.{Client}
use cluster_api_provider_clo.Cloud.Drives.{has_status}
use cluster_api_provider_clo.Cloud.Servers.{classify, get_server, delete_drives, delete_ips}
use cluster_api_provider_clo.Cloud.Servers.Store.{Deletes, Removed, Removed-delete_drive}

-- The server calls leave the drives alone, and a deletion of a drive that succeeds takes effect.
pub record KeepsDrives {W : Type 0} (c : Client W) (drives : W → List Drive) : Type 0 where
  pub get_keeps : (uuid : String) (w : W) → drives (c.sdk.servers.get uuid w).1 ≡ drives w
  pub stop_keeps : (uuid : String) (w : W) → drives (c.sdk.servers.stop uuid w).1 ≡ drives w
  pub delete_keeps : (uuid : String) (w : W) → drives (c.sdk.servers.delete uuid w).1 ≡ drives w
  pub delete_removes :
      (uuid : String) (w : W)
      → Deletes uuid
          (drives w)
          (drives (c.sdk.drives.delete uuid w).1)
          (c.sdk.drives.delete uuid w).0

-- The UUIDs of the drives that a server has; an entry without a drive has none.
abbrev pub attached : List ServerDrive → List String
attached sds = filter_map (λ sd. Option.map (λ (d : Drive). d.uuid) sd.drive) sds

module _ {W : Type 0} (c : Client W) (drives : W → List Drive) (keeps : KeepsDrives c drives) where
  delete_drives-Removed :
      (uuids : List String) (held : List Drive) (w : W)
      → drives w ≡ held
      → Removed c drives uuids held w (delete_drives c uuids w)
  unfolding delete_drives Removed
  delete_drives-Removed [] held w same = (refl, same)
  delete_drives-Removed (uuid ∷ uuids) held w same =
      Removed-delete_drive c drives uuid uuids (delete_drives c uuids) held w
        (keeps.delete_removes uuid w) same (delete_drives-Removed uuids)

  delete_ips_lem : (uuids : List String) (w : W) → delete_ips c uuids w ≡ w
  unfolding delete_ips
  delete_ips_lem [] w = refl
  delete_ips_lem (uuid ∷ uuids) w = delete_ips_lem uuids w

  -- What `DeleteServer` leaves behind, by what `GetServer` answers and by its own result.
  abbrev pub AfterDelete :
      Result Error (Option Server) → List Drive → W → Result Error (Unit {0}) → Type 0
  AfterDelete (err e) before last result = (result ≡ err e) × (drives last ≡ before)
  AfterDelete (ok none) before last result = (result ≡ ok tt) × (drives last ≡ before)
  AfterDelete (ok (some server)) before last (ok _) =
      (when : W) × Removed c drives (attached server.drives) before when last
  AfterDelete (ok (some server)) before last (err e) = drives last ≡ before

  left_over :
      (uuids ips : List String) (before : List Drive) (w : W)
      → drives w ≡ before
      → Removed c drives uuids before w (delete_ips c ips (delete_drives c uuids w))
  left_over uuids ips before w same =
      subst (Removed c drives uuids before w) (sym (delete_ips_lem ips (delete_drives c uuids w)))
        (delete_drives-Removed uuids before w same)

  delete_left :
      (uuid : String) (server : Server) (before : List Drive) (w : W)
      → drives w ≡ before
      → (uuids : List String) → (ips : List String)
      → (when : W) × Removed c drives uuids before when
          (delete_ips c ips (delete_drives c uuids (c.sdk.servers.delete uuid w).1))
  delete_left uuid server before w same uuids ips =
      let gone = (c.sdk.servers.delete uuid w).1 in
      (gone, left_over uuids ips before gone (keeps.delete_keeps uuid w ∙ same))

module _ {W : Type 0} (c : Client W) where
  -- The text of an error speaks of absence, or of a refusal.
  abbrev pub SaysMissing : ApiError → Type 0
  SaysMissing e =
      (has_status 404 e ≡ true)
      ⊎ ((contains_text e.message "404" ≡ true) ⊎ (contains_text e.message "not found" ≡ true))

  -- Where `GetServer` answers that there is no server, the call failed with the status 404, or with
  -- another status than 403 and a text that holds "404" or "not found".
  pub get_server_missing :
      (uuid : String) (w : W)
      → (get_server c uuid w).0 ≡ ok none
      → (e : ApiError) × ((c.sdk.servers.get uuid w).0 ≡ err e)
        × (has_status 403 e ≡ false)
        × SaysMissing e
  unfolding get_server classify
  get_server_missing uuid w h = elim (Result-cases (c.sdk.servers.get uuid w).0) [
    | inl (server, e) ↦ absurd (ground (arith, e))
    | inr (e, failed) ↦ (e, failed, ground (arith, failed), ground (arith, failed))
  ]
