-- ===== src/Precheck/Runs.antt =====
-- What start and retry_failed leave in the counters.
use factory_test.Common.{
  Bool, true, false, ℕ, ◌+◌, ◌<◌, length, ◌≡◌, Bool-cases, inl, inr, if◌then◌else◌, arith,
}
use factory_test.Session.Types.{size_mod}
use factory_test.Precheck.{
  Snapshot, Bench, Counters, is_failed, is_over, is_running, prepared, retry_prepared, change_at,
  skip_unsupported, run_items, run, start, retry_failed, camera_item, imu_item,
}
use factory_test.Precheck.Counts.{is_passed, tally, finished, run_items-Balanced}
use factory_test.Precheck.Prepared.{
  retry_items-Retried, IsCounted, HasRoom, SkippedAt, skip_unsupported-IsCounted,
  prepared-IsCounted, skip_prepared-IsCounted, retry_prepared-SkippedAt, skip_unsupported_room,
}

module _ (b : Bench) where
  open b use {World}

  -- What the loop leaves of a snapshot that was counted before it.
  run_items-IsCounted :
      (extra : ℕ) (s : Snapshot) (w : World)
      → IsCounted extra s
      → s.completed + length s.items < size_mod
      → (let p =
            run_items b 0 s.items
              (record {
                current_index = s.current_index;
                completed = s.completed;
                passed = s.passed;
                failed = s.failed;
              })
              w in
          (p.counters.passed ≡ tally is_passed p.items)
          × (p.counters.failed ≡ tally is_failed p.items)
          × (p.counters.completed ≡ finished p.items + extra))
  run_items-IsCounted extra s w c room =
      let start : Counters = record {
        current_index = s.current_index;
        completed = s.completed;
        passed = s.passed;
        failed = s.failed;
      } in
      let balanced =
        run_items-Balanced b 0 s.items start w
          (room, omega (arith, c.passed, c.completed), omega (arith, c.failed, c.completed)) in
      (
        omega (arith, balanced.passed, c.passed),
        omega (arith, balanced.failed, c.failed),
        omega (arith, balanced.completed, c.completed),
      )

  run-IsCounted :
      (extra : ℕ) (s : Snapshot) (w : World)
      → (let s₁ = if b.is_lite then skip_unsupported s else s in
          IsCounted extra s₁ × (s₁.completed + length s₁.items < size_mod))
      → IsCounted extra (run b s w).0
  unfolding run
  run-IsCounted extra s w (c, room) =
      let (passes, fails, done) =
        run_items-IsCounted extra (if b.is_lite then skip_unsupported s else s) w c room in
      record { passed = passes; failed = fails; completed = done }

  -- After a start of a precheck that is not running the counters count the items: those passed, those failed, and as completed these
  -- and the skipped.
  pub start-IsCounted :
      (s : Snapshot) (w : World) → is_running s.state ≡ false → IsCounted 0 (start b s w).0
  unfolding start prepared skip_unsupported change_at
  start-IsCounted s w idle = simp idle (run-IsCounted 0 (prepared s) w (prepared_either b.is_lite))
    where
      prepared_either :
          (lite : Bool)
          → (let s₁ = if lite then skip_unsupported (prepared s) else prepared s in
              IsCounted 0 s₁ × (s₁.completed + length s₁.items < size_mod))
      prepared_either true = (skip_prepared-IsCounted s, omega arith)
      prepared_either false = (prepared-IsCounted s, omega arith)

  -- A retry of a run that is over keeps the counters right on a model with all the hardware.
  retry_prepared-IsCounted :
      (extra : ℕ) (s : Snapshot)
      → IsCounted extra s
      → HasRoom s
      → IsCounted extra (retry_prepared s) × HasRoom (retry_prepared s)
  unfolding retry_prepared
  retry_prepared-IsCounted extra s c room =
      let r =
        retry_items-Retried s.items s.completed s.failed (omega (arith, c.completed))
          (omega (arith, c.failed)) (omega (arith, room))
          (omega (arith, c.failed, c.completed, room)) in
      (
        record {
          passed = omega (arith, c.passed, r.same_passed);
          failed = omega (arith, c.failed, r.failed, r.none_failed);
          completed =
              omega (arith, c.completed, r.completed, r.same_passed, r.same_skipped, r.none_failed);
        },
        omega (arith, room, r.completed, r.same_length),
      )

  -- With all the hardware a retry leaves the counters counting the items as they did before it, if
  -- there is room below 2 ^ 64 for another run.
  pub retry_failed-IsCounted :
      (extra : ℕ) (s : Snapshot) (w : World)
      → b.is_lite ≡ false
      → IsCounted extra s
      → HasRoom s
      → IsCounted extra (retry_failed b s w).0
  unfolding retry_failed
  retry_failed-IsCounted extra s w full c room = elim (Bool-cases (is_over s.state)) [
    | inr early ↦ simp early c
    | inl over ↦
        let (counted, space) = retry_prepared-IsCounted extra s c room in
        simp over
          (run-IsCounted extra (retry_prepared s) w (simp full (counted, omega (arith, space))))
  ]

  -- On a Lite model a retry of a run that is over counts the camera and the IMU, which are skipped
  -- already, once more: `completed` becomes too large by another two.
  pub retry_failed-counts_again :
      (extra : ℕ) (s : Snapshot) (w : World)
      → b.is_lite ≡ true
      → is_over s.state ≡ true
      → SkippedAt camera_item s.items
      → SkippedAt imu_item s.items
      → IsCounted extra s
      → HasRoom s
      → IsCounted (extra + 2) (retry_failed b s w).0
  unfolding retry_failed
  retry_failed-counts_again extra s w lite over camera imu c room =
      let (counted, space) = retry_prepared-IsCounted extra s c room in
      simp over (
        run-IsCounted (extra + 2) (retry_prepared s) w (
          simp lite (
            skip_unsupported-IsCounted extra (retry_prepared s) counted space
                (retry_prepared-SkippedAt camera_item s camera)
                (retry_prepared-SkippedAt imu_item s imu),
            skip_unsupported_room (retry_prepared s) space,
          )))
