-- ===== src/CsiNode/Boot.antt =====
-- The boot disk is never found.
use cluster_api_provider_clo.Prelude.{
  ℕ, zero, suc, ◌≡◌, refl, sym, subst, ◌⊎◌, ap, ◌∙◌, String, false, Bool-cases, ◌||◌, Option, some,
  none, List, [], ◌∷◌, ◌==◌, contains, if◌then◌else◌, Result, ok, err, arith, Result-cases,
  Option-cases, inl, inr,
}
use cluster_api_provider_clo.Prelude.Dict.{Dict, lookup}
use cluster_api_provider_clo.CsiNode.Types.{Host}
use cluster_api_provider_clo.CsiNode.Devices.{
  is_boot_disk, listed, resolve_all, mounted_devices, candidates, newest, choose, new_devices,
  sleep_unless_last, await_device, take_or, find_device_by_path,
}

-- No device of the map, or of the list, is the boot disk.
AreData : Dict String → Type 0
AreData [] = Unit
AreData ((path, resolved) ∷ devices) = (is_boot_disk resolved ≡ false) × AreData devices

AllData : List String → Type 0
AllData [] = Unit
AllData (resolved ∷ devices) = (is_boot_disk resolved ≡ false) × AllData devices

IsData : Option String → Type 0
IsData none = Unit
IsData (some device) = is_boot_disk device ≡ false

IsDataResult : Result (Unit {0}) String → Type 0
IsDataResult (err e) = Unit
IsDataResult (ok device) = is_boot_disk device ≡ false

List-cases :
    (xs : List String) → (xs ≡ []) ⊎ ((first : String) × (more : List String) × (xs ≡ first ∷ more))
List-cases [] = inl refl
List-cases (first ∷ more) = inr (first, more, refl)

module _ {W : Type 0} (host : Host W) where
  candidates-AreData :
      (mounted : List String) (devices : Dict String) → AreData (candidates host mounted devices)
  unfolding candidates AreData
  candidates-AreData mounted [] = tt
  candidates-AreData mounted ((path, resolved) ∷ devices) =
      let rest = candidates-AreData mounted devices in
      elim (Bool-cases (is_boot_disk resolved)) [
        | inl boot ↦
            subst
              (λ b. AreData (
                if b || contains mounted resolved
                then candidates host mounted devices
                else (path, resolved) ∷ candidates host mounted devices))
              (sym boot) rest
        | inr data_disk ↦ elim (Bool-cases (contains mounted resolved)) [
          | inl in_use ↦ ground (arith, data_disk, in_use, rest)
          | inr unused ↦ ground (arith, data_disk, unused, rest)
        ]
      ]

  newest-IsData :
      (best : Option String) (time : ℕ) (devices : Dict String) (w : W)
      → IsData best
      → AreData devices
      → IsData (newest host best time devices w)
  unfolding newest AreData IsData
  newest-IsData best time [] w b all = b
  newest-IsData best time ((path, resolved) ∷ devices) w b all =
      elim (Option-cases (host.mod_time path w)) [
        | inl unread ↦ ground (arith, unread, newest-IsData best time devices w b all.1)
        | inr (changed, read) ↦ ground (
          arith,
          read,
          newest-IsData best time devices w b all.1,
          newest-IsData (some resolved) changed devices w all.0 all.1,
        )
      ]

  choose-IsData : (devices : Dict String) (w : W) → AreData devices → IsData (choose host devices w)
  unfolding choose AreData IsData
  choose-IsData [] w all = tt
  choose-IsData ((path, resolved) ∷ []) w all = all.0
  choose-IsData (first ∷ second ∷ devices) w all =
      newest-IsData none 0 (first ∷ second ∷ devices) w tt all

  new_devices-AllData :
      (existing : Dict String) (entries : List String) (w : W)
      → AllData (new_devices host existing entries w)
  unfolding new_devices AllData
  new_devices-AllData existing [] w = tt
  new_devices-AllData existing (entry ∷ entries) w =
      ground (arith, new_devices-AllData existing entries w)

  await_device-IsDataResult :
      (rounds : ℕ) (existing : Dict String) (w : W)
      → IsDataResult (await_device host rounds existing w).0
  unfolding await_device IsDataResult AllData
  await_device-IsDataResult zero existing w = tt
  await_device-IsDataResult (suc rounds) existing w =
      let later = await_device-IsDataResult rounds existing in
      elim (Result-cases (host.glob_devices w).0) [
        | inr (e, failed) ↦ ground (arith, failed, later (host.sleep (host.glob_devices w).1))
        | inl (entries, done) ↦
            let found = new_devices host existing entries (host.glob_devices w).1 in
            let all = new_devices-AllData existing entries (host.glob_devices w).1 in
            elim (List-cases found) [
              | inl nothing ↦ ground (
                arith,
                done,
                nothing,
                later (sleep_unless_last host rounds (host.glob_devices w).1),
              )
              | inr (first, more, e) ↦
                  let is_data : AllData (first ∷ more) = subst AllData e all in
                  elim (List-cases more) [
                    | inl single ↦ ground (arith, done, e ∙ ap (λ xs. first ∷ xs) single, is_data.0)
                    | inr (second, others, several) ↦
                        ground (arith, done, e ∙ ap (λ xs. first ∷ xs) several)
                  ]
            ]
      ]

  settled-IsDataResult :
      (chosen : Option String) (w : W) (awaited : Result (Unit {0}) String × W)
      → IsData chosen
      → IsDataResult awaited.0
      → IsDataResult (take_or host w awaited chosen).0
  unfolding take_or IsDataResult IsData
  settled-IsDataResult none w awaited chosen h = h
  settled-IsDataResult (some device) w awaited chosen h = chosen

  find_device-IsDataResult :
      (context : Dict String) (w : W) → IsDataResult (find_device_by_path host context w).0
  unfolding find_device_by_path IsDataResult
  find_device-IsDataResult context w =
      let globbed = host.glob_devices w in
      let mounts = host.list_mounts globbed.1 in
      let existing = resolve_all host (listed globbed.0) globbed.1 in
      let mounted = mounted_devices host (listed mounts.0) mounts.1 in
      let left = candidates host mounted existing in
      let settled =
        settled-IsDataResult (choose host left mounts.1) mounts.1
          (await_device host 20 existing mounts.1)
          (choose-IsData left mounts.1 (candidates-AreData mounted existing))
          (await_device-IsDataResult 20 existing mounts.1) in
      elim (Option-cases (lookup "channel" context)) [
        | inl absent ↦ ground (arith, absent)
        | inr (channel, e) ↦ elim (Bool-cases (channel == "")) [
          | inl blank ↦ ground (arith, e, blank)
          | inr given ↦ ground (arith, e, given, settled)
        ]
      ]

  -- The device that is found is not the boot disk.
  pub find_device_by_path_data :
      (context : Dict String) (w : W) (device : String)
      → (find_device_by_path host context w).0 ≡ ok device
      → is_boot_disk device ≡ false
  unfolding IsDataResult
  find_device_by_path_data context w device e =
      subst IsDataResult e (find_device-IsDataResult context w)
