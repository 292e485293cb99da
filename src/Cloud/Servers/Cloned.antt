-- ===== src/Cloud/Servers/Cloned.antt =====
-- The drives that `CloneDrive` leaves behind.
use cluster_api_provider_clo.Prelude.{
  ℕ, zero, suc, ◌+◌, ◌≡◌, ◌⊎◌, ◌∙◌, inl, inr, String, true, Option, some, none, List, [], ◌∷◌, ◌++◌,
  if-elim, Result, ok, err, run_next, or_return, arith,
}
use cluster_api_provider_clo.CloudSdk.{ApiError, Drive}
use cluster_api_provider_clo.GoError.{Error}
use cluster_api_provider_clo.Cloud.Types.{Client, Timer, HttpApi}
use cluster_api_provider_clo.Cloud.Drives.{
  has_status, poll, wait_loop, wait_rounds, wait_for_drive_ready, settle_clone, clone_drive,
}
use cluster_api_provider_clo.Cloud.Drives.Frame.{wait_for_drive_ready_keeps}
use cluster_api_provider_clo.Cloud.Servers.Store.{IsLawful, IsAbout, Clones, is_unused}

module _ {W : Type 0} (timer : Timer W) (http : HttpApi W) (c : Client W) (drives : W → List Drive)
    (lawful : IsLawful timer http c drives) where
  -- A result is about the drive that was waited for.
  abbrev AboutSome : String → Option (Result Error Drive) → Type 0
  AboutSome uuid none = Unit
  AboutSome uuid (some result) = IsAbout uuid result

  poll-AboutSome :
      (uuid : String) (answer : Result ApiError Drive)
      → IsAbout uuid answer
      → AboutSome uuid (poll answer)
  poll-AboutSome uuid (ok drive) h = ground arith
  poll-AboutSome uuid (err e) h = if-elim (AboutSome uuid) (has_status 404 e) tt tt

  wait_loop-AboutSome :
      (rounds n started deadline : ℕ) (uuid : String) (w : W)
      → AboutSome uuid (wait_loop timer c rounds n started deadline uuid w).0
  unfolding wait_loop
  wait_loop-AboutSome zero n started deadline uuid w = tt
  wait_loop-AboutSome (suc rounds) n started deadline uuid w =
      let w' = (timer.await_tick started n w).1 in
      ground (
        arith,
        poll-AboutSome uuid (c.sdk.drives.get uuid w').0 (lawful.get_answers uuid w'),
        wait_loop-AboutSome rounds (n + 1) started deadline uuid (c.sdk.drives.get uuid w').1,
      )

  wait_keeps :
      (uuid : String) (timeout : ℕ) (w : W)
      → (drives (wait_for_drive_ready timer c uuid timeout w).1 ≡ drives w)
        × IsAbout uuid (wait_for_drive_ready timer c uuid timeout w).0
  unfolding wait_for_drive_ready
  wait_keeps uuid timeout w = ground (
    arith,
    wait_for_drive_ready_keeps timer c drives lawful.tick_keeps lawful.get_keeps uuid timeout w,
    wait_loop-AboutSome (wait_rounds timeout) 1 (timer.now w) (timer.now w + timeout) uuid w,
  )

  -- A drive was added, under an unused UUID.
  abbrev pub Adds : List Drive → Drive → List Drive → Type 0
  Adds before drive after = (is_unused drive.uuid before ≡ true) × (after ≡ before ++ (drive ∷ []))

  -- What `CloneDrive` leaves behind.
  abbrev pub AfterClone : List Drive → List Drive → Result Error Drive → Type 0
  AfterClone before after (ok drive) =
      (created : Drive) × Adds before created after × (drive.uuid ≡ created.uuid)
  AfterClone before after (err e) =
      (after ≡ before) ⊎ ((created : Drive) × Adds before created after)

  settled-AfterClone :
      (before : List Drive) (created : Drive) (w w' : W) (answer : Result Error Drive)
      → Adds before created (drives w)
      → drives w' ≡ drives w
      → IsAbout created.uuid answer
      → AfterClone before (drives w') answer
  settled-AfterClone before created w w' (ok drive) added kept about =
      (created, (added.0, kept ∙ added.1), about)
  settled-AfterClone before created w w' (err e) added kept about =
      inr (created, (added.0, kept ∙ added.1))

  settle_clone_keeps :
      (drive : Drive) (w : W)
      → (drives (settle_clone timer c drive w).1 ≡ drives w)
        × IsAbout drive.uuid (settle_clone timer c drive w).0
  unfolding settle_clone
  settle_clone_keeps drive w = ground (arith, wait_keeps drive.uuid 300000000000 w)

  cloned-AfterClone :
      (f : ApiError → Error) (before : List Drive) (called : Result ApiError Drive × W)
      → Clones before (drives called.1) called.0
      → AfterClone before
          (drives (run_next (settle_clone timer c) (or_return f called)).1)
          (run_next (settle_clone timer c) (or_return f called)).0
  cloned-AfterClone f before (ok drive, w) added =
      settled-AfterClone before drive w (settle_clone timer c drive w).1
        (settle_clone timer c drive w).0 added (settle_clone_keeps drive w).0
        (settle_clone_keeps drive w).1
  cloned-AfterClone f before (err e, w) same = inl same

  pub clone_drive-AfterClone :
      (source name : String) (size : ℕ) (w : W)
      → AfterClone
          (drives w)
          (drives (clone_drive timer c source name size w).1)
          (clone_drive timer c source name size w).0
  unfolding clone_drive
  clone_drive-AfterClone source name size w =
      cloned-AfterClone _ (drives w) _ (lawful.clone_adds source _ w)
