-- ===== src/Cloud/Drives/Frame.antt =====
-- What cloning and waiting leave alone: any view of the state that the single calls leave alone.
use cluster_api_provider_clo.Prelude.{
  ℕ, zero, suc, ◌+◌, ◌*◌, ◌≡◌, refl, ◌∙◌, String, Result, ok, err, run_next, or_return, arith,
}
use cluster_api_provider_clo.CloudSdk.{ApiError, Drive}
use cluster_api_provider_clo.GoError.{Error}
use cluster_api_provider_clo.Cloud.Types.{Client, Timer, second}
use cluster_api_provider_clo.Cloud.Drives.{
  wait_rounds, wait_loop, wait_for_drive_ready, settle_clone, clone_body, clone_drive,
}

module _ {ℓ} {W : Type 0} {V : Type ℓ} (timer : Timer W) (c : Client W) (view : W → V)
    (tick_keeps : (started n : ℕ) (w : W) → view (timer.await_tick started n w).1 ≡ view w)
    (get_keeps : (uuid : String) (w : W) → view (c.sdk.drives.get uuid w).1 ≡ view w) where
  wait_loop_keeps :
      (rounds n started deadline : ℕ) (uuid : String) (w : W)
      → view (wait_loop timer c rounds n started deadline uuid w).1 ≡ view w
  unfolding wait_loop
  wait_loop_keeps zero n started deadline uuid w = refl
  wait_loop_keeps (suc rounds) n started deadline uuid w =
      let w' = (timer.await_tick started n w).1 in
      ground (
        arith,
        tick_keeps started n w,
        get_keeps uuid w',
        wait_loop_keeps rounds (n + 1) started deadline uuid (c.sdk.drives.get uuid w').1,
      )

  pub wait_for_drive_ready_keeps :
      (uuid : String) (timeout : ℕ) (w : W)
      → view (wait_for_drive_ready timer c uuid timeout w).1 ≡ view w
  unfolding wait_for_drive_ready
  wait_for_drive_ready_keeps uuid timeout w =
      ground (
        arith,
        wait_loop_keeps (wait_rounds timeout) 1 (timer.now w) (timer.now w + timeout) uuid w,
      )

  pub settle_clone_keeps : (drive : Drive) (w : W) → view (settle_clone timer c drive w).1 ≡ view w
  unfolding settle_clone
  settle_clone_keeps drive w =
      ground (arith, wait_for_drive_ready_keeps drive.uuid (5 * (60 * second)) w)

  cloned_keeps :
      (f : ApiError → Error) (before : V) (called : Result ApiError Drive × W)
      → view called.1 ≡ before
      → view (run_next (settle_clone timer c) (or_return f called)).1 ≡ before
  cloned_keeps f before (ok drive, w) same = settle_clone_keeps drive w ∙ same
  cloned_keeps f before (err e, w) same = same

  pub clone_drive_keeps :
      ((source : String) (body : Drive) (w : W)
        → view (c.sdk.drives.clone source body w).1 ≡ view w)
      → (source name : String) (size : ℕ) (w : W)
      → view (clone_drive timer c source name size w).1 ≡ view w
  unfolding clone_drive
  clone_drive_keeps clone_keeps source name size w =
      cloned_keeps _ (view w) (c.sdk.drives.clone source (clone_body name size) w)
        (clone_keeps source (clone_body name size) w)
