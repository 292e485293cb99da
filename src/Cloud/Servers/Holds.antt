-- ===== src/Cloud/Servers/Holds.antt =====
-- The drives that were there, with those that `CreateServer` has cloned so far.
use cluster_api_provider_clo.Prelude.{
  ◌+◌, ◌≡◌, ◌≢◌, ◌∙◌, refl, ap, subst, String, true, false, List, [], ◌∷◌, ◌++◌, All, length,
  length-append, ==_iff, arith,
}
use cluster_api_provider_clo.CloudSdk.{Drive}
use cluster_api_provider_clo.Cloud.Servers.Store.{without_drive, is_unused}

unfoldable pub remove_all : List String → List Drive → List Drive
remove_all [] held = held
remove_all (uuid ∷ uuids) held = remove_all uuids (without_drive uuid held)

is_unused-without_drive :
    (uuid other : String) (held : List Drive)
    → is_unused uuid held ≡ true
    → is_unused uuid (without_drive other held) ≡ true
unfolding without_drive is_unused
is_unused-without_drive uuid other [] h = refl
is_unused-without_drive uuid other (drive ∷ held) h =
    ground (arith, is_unused-without_drive uuid other held)

is_unused-remove_all :
    (uuid : String) (uuids : List String) (held : List Drive)
    → is_unused uuid held ≡ true
    → is_unused uuid (remove_all uuids held) ≡ true
unfolding remove_all
is_unused-remove_all uuid [] held h = h
is_unused-remove_all uuid (first ∷ uuids) held h =
    is_unused-remove_all uuid uuids (without_drive first held)
      (is_unused-without_drive uuid first held h)

without_drive-snoc :
    (uuid : String) (held : List Drive) (drive : Drive)
    → drive.uuid ≢ uuid
    → without_drive uuid (held ++ (drive ∷ [])) ≡ without_drive uuid held ++ (drive ∷ [])
unfolding without_drive
without_drive-snoc uuid [] drive apart = ground (arith, ==_iff drive.uuid uuid)
without_drive-snoc uuid (first ∷ held) drive apart =
    ground (arith, without_drive-snoc uuid held drive apart)

-- A drive of none of the UUIDs stays at the end.
remove_all-snoc :
    (uuids : List String) (held : List Drive) (drive : Drive)
    → All (λ uuid. drive.uuid ≢ uuid) uuids
    → remove_all uuids (held ++ (drive ∷ [])) ≡ remove_all uuids held ++ (drive ∷ [])
unfolding remove_all
remove_all-snoc [] held drive apart = refl
remove_all-snoc (uuid ∷ uuids) held drive apart =
    ap (remove_all uuids) (without_drive-snoc uuid held drive apart.0)
    ∙ remove_all-snoc uuids (without_drive uuid held) drive apart.1

remove_all-append :
    (xs : List String) (uuid : String) (held : List Drive)
    → remove_all (xs ++ (uuid ∷ [])) held ≡ without_drive uuid (remove_all xs held)
unfolding remove_all
remove_all-append [] uuid held = refl
remove_all-append (x ∷ xs) uuid held = remove_all-append xs uuid (without_drive x held)

-- The drives are `before` and one for each of the UUIDs.
pub record Holds (before : List Drive) (cloned : List String) (held : List Drive) : Type 0 where
  pub removed : remove_all cloned held ≡ before
  pub present : All (λ uuid. is_unused uuid held ≡ false) cloned
  pub counted : length held ≡ length before + length cloned

is_unused_snoc :
    (uuid : String) (held : List Drive) (drive : Drive)
    → is_unused uuid held ≡ false
    → is_unused uuid (held ++ (drive ∷ [])) ≡ false
unfolding is_unused
is_unused_snoc uuid [] drive h = ground arith
is_unused_snoc uuid (first ∷ held) drive h = ground (arith, is_unused_snoc uuid held drive)

present_snoc :
    (uuids : List String) (held : List Drive) (drive : Drive)
    → All (λ uuid. is_unused uuid held ≡ false) uuids
    → All (λ uuid. is_unused uuid (held ++ (drive ∷ [])) ≡ false) uuids
present_snoc [] held drive h = tt
present_snoc (uuid ∷ uuids) held drive h =
    (is_unused_snoc uuid held drive h.0, present_snoc uuids held drive h.1)

apart_of_present :
    (uuids : List String) (held : List Drive) (drive : Drive)
    → is_unused drive.uuid held ≡ true
    → All (λ uuid. is_unused uuid held ≡ false) uuids
    → All (λ uuid. drive.uuid ≢ uuid) uuids
apart_of_present [] held drive unused h = tt
apart_of_present (uuid ∷ uuids) held drive unused h = (
  λ e. ground (arith, ap (λ u. is_unused u held) e),
  apart_of_present uuids held drive unused h.1,
)

is_unused_last :
    (drive : Drive) (held : List Drive) → is_unused drive.uuid (held ++ (drive ∷ [])) ≡ false
unfolding is_unused
is_unused_last drive [] = ground (arith, ==_iff drive.uuid drive.uuid)
is_unused_last drive (first ∷ held) = ground (arith, is_unused_last drive held)

without_drive_last :
    (drive : Drive) (held : List Drive)
    → is_unused drive.uuid held ≡ true
    → without_drive drive.uuid (held ++ (drive ∷ [])) ≡ held
unfolding is_unused without_drive
without_drive_last drive [] unused = ground (arith, ==_iff drive.uuid drive.uuid)
without_drive_last drive (first ∷ held) unused = ground (arith, without_drive_last drive held)

All-snoc :
    (Wanted : String → Type 0) (xs : List String) (x : String)
    → All Wanted xs
    → Wanted x
    → All Wanted (xs ++ (x ∷ []))
All-snoc Wanted [] x h k = (k, tt)
All-snoc Wanted (y ∷ xs) x h k = (h.0, All-snoc Wanted xs x h.1 k)

-- Cloning one more drive.
pub Holds-snoc :
    (before : List Drive) (cloned : List String) (held : List Drive) (drive : Drive)
    → Holds before cloned held
    → is_unused drive.uuid held ≡ true
    → Holds before (cloned ++ (drive.uuid ∷ [])) (held ++ (drive ∷ []))
unfolding without_drive
Holds-snoc before cloned held drive h unused = record {
  removed =
      remove_all-append cloned drive.uuid (held ++ (drive ∷ []))
      ∙ ap (without_drive drive.uuid) (
          remove_all-snoc cloned held drive (apart_of_present cloned held drive unused h.present)
          ∙ ap (λ xs. xs ++ (drive ∷ [])) h.removed)
      ∙ without_drive_last drive before (
          subst (λ xs. is_unused drive.uuid xs ≡ true) h.removed
            (is_unused-remove_all drive.uuid cloned held unused));
  present =
      All-snoc _ cloned drive.uuid (present_snoc cloned held drive h.present)
        (is_unused_last drive held);
  counted =
      ground
        (arith, h.counted, length-append held (drive ∷ []), length-append cloned (drive.uuid ∷ []));
}
