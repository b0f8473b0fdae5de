-- ===== src/Examples/Benches.antt =====
-- The precheck on a bench where one check fails.
use factory_test.Common.{◌+◌, Bool, true, false, not, ◌==◌, ℕ, refl, arith}
use factory_test.Precheck.{
  RunState, CheckState, CheckItem, Snapshot, Findings, Bench, make_items, start, retry_failed,
  change_at, skip_item, camera_item, imu_item,
}
use factory_test.Precheck.Counts.{tally}
use factory_test.Precheck.Prepared.{IsCounted, HasRoom, SkippedAt}
use factory_test.Precheck.Runs.{start-IsCounted, retry_failed-IsCounted, retry_failed-counts_again}

abbrev findings : ℕ → CheckItem → Findings
findings i item = record {
  success = not (i == 6);
  detail = item.detail;
  cap_sub_items = item.cap_sub_items;
  ir_sub_items = item.ir_sub_items;
}

-- The Ethernet check fails, and nobody cancels.
abbrev bench : Bool → Bench
bench lite = record {
  World = ℕ;
  is_lite = lite;
  run_check = λ i item w. (findings i item, w);
  is_canceled = λ w. (false, w);
}

abbrev fresh : Snapshot
fresh = record {
  state = RunState.idle;
  current_index = 0;
  completed = 0;
  passed = 0;
  failed = 0;
  device_name = "";
  serial_number = "";
  headline = "按 Enter 开始自动初检";
  items = make_items;
}

-- A run that is over, with a failed item and two that are skipped.
abbrev over : Snapshot
over = record fresh {
  state = RunState.failed;
  completed = 3;
  failed = 1;
  items = change_at 12 skip_item (
      change_at 13 skip_item
        (change_at 6 (λ item. record item { state = CheckState.failed }) make_items));
}

over-IsCounted : IsCounted 0 over
unfolding change_at tally
over-IsCounted = record { passed = refl; failed = refl; completed = refl }

over-HasRoom : HasRoom over
unfolding change_at
over-HasRoom = omega arith

start-IsCounted_example : IsCounted 0 (start (bench true) fresh 0).0
start-IsCounted_example = start-IsCounted (bench true) fresh 0 refl

retry_failed-IsCounted_example : IsCounted 0 (retry_failed (bench false) over 0).0
retry_failed-IsCounted_example =
    retry_failed-IsCounted (bench false) 0 over 0 refl over-IsCounted over-HasRoom

over-camera : SkippedAt camera_item over.items
unfolding change_at
over-camera = refl

over-imu : SkippedAt imu_item over.items
unfolding change_at
over-imu = refl

retry_failed-counts_again_example : IsCounted (0 + 2) (retry_failed (bench true) over 0).0
retry_failed-counts_again_example =
    retry_failed-counts_again (bench true) 0 over 0 refl refl over-camera over-imu over-IsCounted
      over-HasRoom
