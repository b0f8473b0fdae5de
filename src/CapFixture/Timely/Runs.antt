-- ===== src/CapFixture/Timely/Runs.antt =====
-- src/model/cap_fixture_test_model.cpp: a whole run has rounds enough.
use factory_test.Common.{
  ◌≡◌, refl, ◌∙◌, Bool, true, false, Option, none, some, ℕ, zero, suc, String, ◌⊎◌, arith,
}
use factory_test.CapFixture.Types.{Rig, CapFixtureRunState}
use factory_test.CapFixture.Stage.{Machine, Stage, ◌>>◌}
use factory_test.CapFixture.Steps.Waits.{ClockLaws}
use factory_test.CapFixture.Run.{
  ignored, recover_grove_i2c, recover_grove_uart, release_lines, cleanup, power_up, prepare,
  reset_attempts, software_reset, sequence, finish_run, after_reset, run, start,
}
use factory_test.CapFixture.Run.Ended.{start-HasResult}
use factory_test.CapFixture.Timely.{Timely, Timely-done, Timely-publish}
use factory_test.CapFixture.Timely.Stages.{
  ServiceLaws, step_rules, Timely-run_power, Timely-run_i2c, Timely-run_grove_i2c, Timely-run_spi,
  Timely-run_usb, Timely-run_gpio,
}
use factory_test.CapFixture.Timely.Channels.{
  Timely-close_uart, Timely-run_uart, Timely-run_grove_uart,
}

module _ {r : Rig} {clock : ClockLaws r} {from : ℕ} where
  Timely-ignored :
      {A : Type 0} {s : Stage r A} → Timely r clock from s → Timely r clock from (ignored r s)
  unfolding ignored
  Timely-ignored first = record { at = λ m h. first.at m h }

module _ {r : Rig} {clock : ClockLaws r} (laws : ServiceLaws r clock) where
  Timely-sequence : {from : ℕ} → Timely r clock from (sequence r)
  unfolding sequence
  Timely-sequence =
      search
        (
          step_rules, Timely-run_power, Timely-run_i2c, Timely-run_grove_i2c, Timely-run_uart,
          Timely-run_grove_uart, Timely-run_spi, Timely-run_usb, Timely-run_gpio,
        )
        depth 80

  Timely-recover_grove_i2c : {from : ℕ} → Timely r clock from (recover_grove_i2c r)
  unfolding recover_grove_i2c
  Timely-recover_grove_i2c = search (step_rules, laws.i2c_mode, laws.write, Timely-ignored) depth 80

  Timely-recover_grove_uart : {from : ℕ} → Timely r clock from (recover_grove_uart r)
  unfolding recover_grove_uart
  Timely-recover_grove_uart = search (step_rules, laws.write, Timely-ignored) depth 80

  Timely-release_lines : {from : ℕ} → Timely r clock from (release_lines r)
  unfolding release_lines
  Timely-release_lines = search (step_rules, laws) depth 80

  Timely-cleanup : {from : ℕ} → Timely r clock from (cleanup r)
  unfolding cleanup
  Timely-cleanup =
      search
        (
          step_rules, laws.write, laws.ext_5v, laws.grove_5v, laws, Timely-ignored,
          Timely-recover_grove_i2c, Timely-recover_grove_uart, Timely-release_lines,
          Timely-close_uart,
        )
        depth 120

  Timely-prepare : {from : ℕ} → Timely r clock from (prepare r)
  unfolding prepare power_up
  Timely-prepare = search (step_rules, laws.ext_5v, laws) depth 80

  Timely-reset_attempts :
      {from : ℕ} (attempts : ℕ) (error : String)
      → Timely r clock from (reset_attempts r attempts error)
  unfolding reset_attempts
  Timely-reset_attempts zero error = Timely-done (some error)
  Timely-reset_attempts {from} (suc attempts) error =
      let again : (error : String) → Timely r clock from (reset_attempts r attempts error) =
        λ error'. Timely-reset_attempts attempts error' in
      search (step_rules, laws.write, again) depth 80

  Timely-software_reset : {from : ℕ} → Timely r clock from (software_reset r)
  unfolding software_reset
  Timely-software_reset = search (step_rules, Timely-reset_attempts) depth 80

  Timely-finish_run :
      {from : ℕ} (passed : Option (Unit {0})) → Timely r clock from (finish_run r passed)
  unfolding finish_run
  Timely-finish_run passed = search (step_rules, Timely-publish) depth 40

  -- A step that starts at any time keeps what is known of the rounds.
  keeps_overrun :
      {A : Type 0} (s : Stage r A) (m : Machine r)
      → Timely r clock 0 s
      → (s m).1.overrun ≡ m.overrun
  keeps_overrun s m timely = (timely.at m (omega arith)).1

  after_reset-overrun :
      (o : Option (Unit {0})) (m : Machine r) → (after_reset r o m).overrun ≡ m.overrun
  unfolding after_reset
  after_reset-overrun none m = keeps_overrun (cleanup r) m Timely-cleanup
  after_reset-overrun (some _) m =
      let m' = (sequence r m).1 in
      keeps_overrun (finish_run r (sequence r m).0) (cleanup r m').1
        (Timely-finish_run (sequence r m).0)
      ∙ keeps_overrun (cleanup r) m' Timely-cleanup
      ∙ keeps_overrun (sequence r) m Timely-sequence

  -- No loop of a run needs more rounds than it is given.
  pub start-overrun : (joinable : Bool) (m : Machine r) → (start r joinable m).overrun ≡ m.overrun
  unfolding start run
  start-overrun true m = refl
  start-overrun false m =
      after_reset-overrun _ _
      ∙ keeps_overrun (prepare r >> software_reset r) _
          (search (step_rules, Timely-prepare, Timely-software_reset))

-- A run that is never canceled ends with PASSED or FAILED shown, whatever the services answer, as long as
-- the laws of the clock hold and no service takes the clock back: every loop that waits for the
-- clock ends by its own test, as its rounds do not run out.
pub start-ends_with_result :
    (r : Rig) (clock : ClockLaws r) (m : Machine r)
    → ServiceLaws r clock
    → ((w : r.World) → (r.is_canceled w).0 ≡ false)
    → ((start r false m).overrun ≡ m.overrun)
      × (((start r false m).model.snapshot.state ≡ CapFixtureRunState.passed)
          ⊎ ((start r false m).model.snapshot.state ≡ CapFixtureRunState.failed))
start-ends_with_result r clock m laws uncanceled =
    (start-overrun laws false m, start-HasResult r m uncanceled)
