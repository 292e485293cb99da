-- ===== src/Cloud/Drives.antt =====
-- pkg/cloud/drives.go: drives are cloned, waited for, read and deleted.
pub mod Wait
pub mod Frame
use cluster_api_provider_clo.Prelude.{
  ℕ, zero, suc, ◌+◌, ◌*◌, ◌/◌, String, Bool, true, false, ◌||◌, Option, some, none, ltb, nat_eq,
  ◌==◌, if◌then◌else◌, Action, Result, ok, err, ret, fail, map_err, ◌>>=◌, ◌>>◌,
}
use cluster_api_provider_clo.CloudSdk.{ApiError, Drive, drive_of_uuid}
use cluster_api_provider_clo.GoError.{Error, sdk, plain, wrap}
use cluster_api_provider_clo.Cloud.Types.{Client, Timer, second, ticker_interval}

-- `resp != nil && resp.StatusCode == code`
abbrev pub has_status : ℕ → ApiError → Bool
has_status code e = elim e.status_code [ none ↦ false | some n ↦ nat_eq n code ]

-- What one round of `WaitForDriveReady` comes to, from the answer to its read.
abbrev pub poll : Result ApiError Drive → Option (Result Error Drive)
poll (err e) = if has_status 404 e then some (err (plain "drive not found")) else none
poll (ok drive) =
    if drive.status == "mounted" || drive.status == "unmounted"
    then some (ok drive)
    else if drive.status == "unavailable"
    then some (err (plain "drive is unavailable"))
    else none

-- The rounds before a tick comes after the deadline.
abbrev pub wait_rounds : ℕ → ℕ
wait_rounds timeout = suc (timeout / ticker_interval)

abbrev pub or_out_of_rounds :
    {W : Type 0} → Option (Result Error Drive) × W → Result Error Drive × W
or_out_of_rounds (some result, w) = (result, w)
or_out_of_rounds (none, w) = (err (plain "out of rounds"), w)

abbrev pub clone_body : String → ℕ → Drive
clone_body name size = record (drive_of_uuid "") { name = name; size = size }

module _ {W : Type 0} (timer : Timer W) (c : Client W) where
  -- The loop of `WaitForDriveReady` at its n-th tick, with the rounds that are left; `none` says
  -- that they ran out.
  unfoldable pub wait_loop : ℕ → ℕ → ℕ → ℕ → String → W → Option (Result Error Drive) × W
  wait_loop zero n started deadline uuid w = (none, w)
  wait_loop (suc rounds) n started deadline uuid w =
      let (ticked, w') = timer.await_tick started n w in
      elim ticked [
        | err e ↦ (some (err (plain e)), w')
        | ok _ ↦ elim (ltb deadline (timer.now w')) [
          | true ↦ (some (err (plain "timeout waiting for drive to be ready")), w')
          | false ↦
              let (answer, w'') = c.sdk.drives.get uuid w' in
              elim (poll answer) [
                | some result ↦ (some result, w'')
                | none ↦ wait_loop rounds (n + 1) started deadline uuid w''
              ]
        ]
      ]

  -- `WaitForDriveReady`
  unfoldable pub wait_for_drive_ready : String → ℕ → Action W Error Drive
  unfolding wait_loop
  wait_for_drive_ready uuid timeout w =
      or_out_of_rounds
        (wait_loop (wait_rounds timeout) 1 (timer.now w) (timer.now w + timeout) uuid w)

  -- `CloneDrive` behind its call.
  unfoldable pub settle_clone : Drive → Action W Error Drive
  unfolding wait_for_drive_ready
  settle_clone drive =
      if drive.status == "creating" || drive.status == "cloning"
      then map_err (wrap "drive did not become ready")
          (wait_for_drive_ready drive.uuid (5 * (60 * second)))
      else ret drive

  -- `CloneDrive`
  unfoldable pub clone_drive : String → String → ℕ → Action W Error Drive
  unfolding settle_clone
  clone_drive source_uuid name size = do
    drive ←
        map_err (λ e. wrap "failed to clone drive" (sdk e))
          (c.sdk.drives.clone source_uuid (clone_body name size))
    settle_clone drive

module _ {W : Type 0} (c : Client W) where
  -- `GetDrive`
  unfoldable pub get_drive : String → Action W Error (Option Drive)
  get_drive uuid w =
      let (answer, w') = c.sdk.drives.get uuid w in
      elim answer [
        | ok drive ↦ (ok (some drive), w')
        | err e ↦
            if has_status 404 e
            then (ok none, w')
            else (err (wrap "failed to get drive" (sdk e)), w')
      ]

  -- `DeleteDrive`
  unfoldable pub delete_drive : String → Action W Error (Unit {0})
  delete_drive uuid =
      map_err (λ e. wrap "failed to delete drive" (sdk e)) (c.sdk.drives.delete uuid)
