-- ===== src/Cloud/Drives/Wait.antt =====
-- The wait for a drive comes to an end.
use cluster_api_provider_clo.Prelude.{
  ℕ, zero, suc, ◌+◌, ◌*◌, ◌/◌, ◌≤◌, ◌<◌, ◌≡◌, ◌≢◌, ◌∙◌, refl, String, Option, some, none, Result,
  arith,
}
use cluster_api_provider_clo.CloudSdk.{Drive}
use cluster_api_provider_clo.GoError.{Error}
use cluster_api_provider_clo.Cloud.Types.{Client, Timer, IsTicker, ticker_interval}
use cluster_api_provider_clo.Cloud.Drives.{
  wait_loop, wait_rounds, or_out_of_rounds, wait_for_drive_ready,
}

module _ {W : Type 0} (timer : Timer W) (c : Client W) (ticks : IsTicker timer) where
  -- The last tick of the rounds comes after the deadline.
  wait_loop_returns :
      (rounds n started deadline : ℕ) (uuid : String) (w : W)
      → deadline < started + (n + rounds) * ticker_interval
      → (wait_loop timer c (suc rounds) n started deadline uuid w).0 ≢ none
  unfolding wait_loop
  wait_loop_returns zero n started deadline uuid w h = ground (arith, ticks started n w)
  wait_loop_returns (suc rounds) n started deadline uuid w h =
      let w' = (timer.await_tick started n w).1 in
      ground (
        arith,
        wait_loop_returns rounds (n + 1) started deadline uuid (c.sdk.drives.get uuid w').1
            (omega arith),
      )

  -- A wait that has returned does not look at the rounds that are left.
  wait_loop_more :
      (rounds more n started deadline : ℕ) (uuid : String) (w : W)
      → rounds ≤ more
      → (wait_loop timer c rounds n started deadline uuid w).0 ≢ none
      → wait_loop timer c more n started deadline uuid w
        ≡ wait_loop timer c rounds n started deadline uuid w
  unfolding wait_loop
  wait_loop_more zero more n started deadline uuid w le h = absurd (h refl)
  wait_loop_more (suc rounds) zero n started deadline uuid w le h = absurd (omega arith)
  wait_loop_more (suc rounds) (suc more) n started deadline uuid w le h =
      let w' = (timer.await_tick started n w).1 in
      ground (
        arith,
        wait_loop_more rounds more (n + 1) started deadline uuid (c.sdk.drives.get uuid w').1
            (omega arith),
      )

  settled :
      (o : Option (Result Error Drive) × W)
      → o.0 ≢ none
      → o ≡ (some (or_out_of_rounds o).0, (or_out_of_rounds o).1)
  settled (some result, w) h = refl
  settled (none, w) h = absurd (h refl)

  -- With a ticker of which no tick comes early, `WaitForDriveReady` returns after at most one
  -- round for each 5 seconds of its timeout and one more, whatever the calls answer: with any
  -- larger number of rounds, the loop ends with the same result and in the same state.
  pub wait_for_drive_ready_returns :
      (rounds : ℕ) (uuid : String) (timeout : ℕ) (w : W)
      → wait_rounds timeout ≤ rounds
      → wait_loop timer c rounds 1 (timer.now w) (timer.now w + timeout) uuid w ≡ (
        some (wait_for_drive_ready timer c uuid timeout w).0,
        (wait_for_drive_ready timer c uuid timeout w).1,
      )
  unfolding wait_for_drive_ready
  wait_for_drive_ready_returns rounds uuid timeout w le =
      let returns =
        wait_loop_returns (timeout / ticker_interval) 1 (timer.now w) (timer.now w + timeout) uuid w
          (omega arith) in
      wait_loop_more (wait_rounds timeout) rounds 1 (timer.now w) (timer.now w + timeout) uuid w le
        returns
      ∙ settled _ returns
