-- ===== src/CapFixture/Run.antt =====
-- src/model/cap_fixture_test_model.cpp: the constructor, start, run_ and cleanup_.
use factory_test.Common.{
  Bool, true, false, not, ℕ, zero, suc, ◌+◌, String, concat, List, [], ◌∷◌, ltb, Option, none, some,
  if◌then◌else◌,
}
use factory_test.Files.{Result, ok, err, Action}
use factory_test.CapFixture.Types.{
  CapFixtureRunState, CapFixtureItemState, CapFixtureItemSnapshot, CapFixtureSnapshot,
  CapFixtureTestModel, Rig,
}
use factory_test.CapFixture.Constants.{
  software_reset_delay_ms, software_reset_retry_ms, software_reset_attempts,
  channel_switch_delay_ms, grove_i2c_switch_delay_ms, fixture_power_settle_ms,
  sysfs_switch_delay_ms, inter_test_delay_ms, grove_i2c_to_uart_delay_ms,
}
use factory_test.CapFixture.Stage.{
  Stage, Machine, ◌>>=◌, ◌>>◌, done, stop, change_model, fail, hardware, call_or_fail, the_model,
  branch, on_option, on_result, cancel_requested, sleep, publish, published, show,
}
use factory_test.CapFixture.Steps.{delay, select_host_pin_function}
use factory_test.CapFixture.Buses.{run_power, run_i2c, run_grove_i2c, run_spi}
use factory_test.CapFixture.Uart.{close_uart, run_uart, run_grove_uart}
use factory_test.CapFixture.Lines.{caught, run_usb, run_gpio}
pub mod Cleanup
pub mod Passed
pub mod Canceled
pub mod Ended

abbrev pub waiting_item : String → CapFixtureItemSnapshot
waiting_item name = record { name = name; state = CapFixtureItemState.pending; detail = "Waiting" }

-- CapFixtureTestModel().
abbrev pub new_model : CapFixtureTestModel
new_model = record {
  snapshot = record {
    state = CapFixtureRunState.idle;
    items =
        waiting_item "Power"
        ∷ waiting_item "I2C"
        ∷ waiting_item "Grove I2C"
        ∷ waiting_item "UART"
        ∷ waiting_item "Grove UART"
        ∷ waiting_item "SPI"
        ∷ waiting_item "USB"
        ∷ waiting_item "GPIO"
        ∷ [];
    active_index = 0;
    headline = "Install CAP fixture, then press Enter";
    error_message = "";
    revision = 0;
  };
  active_item = 6;
  host_pin_function_known = false;
  host_usb_function_selected = false;
  gpio_test_lines_released = false;
  cap_grove_i2c_active = false;
  cap_grove_uart_active = false;
  host_external_uart_selected = false;
  uart_session = false;
}

module _ (r : Rig) where
  -- A call or a step whose failure is only logged.
  unfoldable pub ignored : {A : Type 0} → Stage r A → Stage r (Unit {0})
  ignored step m = (some tt, (step m).1)

  -- Two delays after a toggle that is accepted.
  abbrev pub settle : Result (Unit {0}) → Stage r (Unit {0})
  settle result =
      on_result result (λ _. done tt)
        (λ _. ignored (delay r 200) >> ignored (delay r channel_switch_delay_ms))

  abbrev pub settle_grove_bus : Result (Unit {0}) → Stage r (Unit {0})
  settle_grove_bus result =
      on_result result (λ _. done tt) (λ _. ignored (delay r grove_i2c_switch_delay_ms))

  unfoldable pub recover_grove_i2c : Stage r (Unit {0})
  recover_grove_i2c = do
    m ← the_model r
    branch m.cap_grove_i2c_active
        (do
          selected ← hardware r (r.set_external_bus_i2c_mode true)
          settle_grove_bus selected
          toggled ← hardware r (r.write_register 0x01 (0x08 ∷ []))
          settle toggled
          change_model r (λ m. record m { cap_grove_i2c_active = false }))
        (done tt)

  unfoldable pub recover_grove_uart : Stage r (Unit {0})
  recover_grove_uart = do
    m ← the_model r
    branch m.cap_grove_uart_active
        (do
          toggled ← hardware r (r.write_register 0x01 (0x09 ∷ []))
          settle toggled
          change_model r (λ m. record m { cap_grove_uart_active = false }))
        (done tt)

  abbrev pub on_hat : Result (Unit {0}) → Stage r (Unit {0})
  on_hat result =
      on_result result (λ _. done tt)
        (λ _. change_model r (λ m. record m { host_external_uart_selected = true }))

  abbrev pub settle_pins : Result (Unit {0}) → Stage r (Unit {0})
  settle_pins result = on_result result (λ _. done tt) (λ _. sleep r sysfs_switch_delay_ms)

  abbrev pub released : Result (Unit {0}) → Stage r (Unit {0})
  released result =
      on_result result (λ _. done tt)
        (λ _. change_model r (λ m. record m { gpio_test_lines_released = true }))

  unfoldable pub release_lines : Stage r (Unit {0})
  release_lines = do
    m ← the_model r
    branch m.gpio_test_lines_released (done tt) (hardware r r.set_gpio_test_inputs >>= released)

  unfoldable pub cleanup : Stage r (Unit {0})
  cleanup = do
    recover_grove_i2c
    hat ← hardware r r.set_external_bus_uart_mode
    on_hat hat
    recover_grove_uart
    ignored (hardware r (r.write_register 0x01 (0x00 ∷ [])))
    selected ← select_host_pin_function r false
    settle_pins selected
    release_lines
    ignored (hardware r (r.set_ext_5v_enabled false))
    ignored (hardware r (r.set_grove_5v_enabled false))
    close_uart r

  -- PREPARE after its first call.
  unfoldable pub power_up : Stage r (Unit {0})
  power_up = do
    change_model r (λ m. record m { host_external_uart_selected = true })
    call_or_fail r "PREPARE" "failed to enable EXT 5V before reset: " (r.set_ext_5v_enabled true)
    delay r fixture_power_settle_ms

  unfoldable pub prepare : Stage r (Unit {0})
  prepare =
      call_or_fail r "PREPARE" "failed to keep I2C on HAT: " r.set_external_bus_uart_mode
      >> power_up

  -- The attempts to send the reset that are left, with reset_error; the result is the error, or `none`
  -- if the reset was sent.
  unfoldable pub reset_attempts : ℕ → String → Stage r (Option String)
  reset_attempts zero error = done (some error)
  reset_attempts (suc attempts) error = do
    canceled ← cancel_requested r
    branch canceled (done (some error)) (do
      sent ← hardware r (r.write_register 0x01 (0x07 ∷ []))
      on_result sent
          (λ reset_error.
            branch (ltb 0 attempts)
              (do
                waited ← caught r (delay r software_reset_retry_ms)
                on_option waited (done (some reset_error))
                    (λ _. reset_attempts attempts reset_error))
              (done (some reset_error)))
          (λ _. done none))

  abbrev pub reset_failed : String → Stage r (Unit {0})
  reset_failed reset_error = do
    canceled ← cancel_requested r
    branch canceled stop (
        fail r "RESET" (
          concat "I2C software reset failed after "
            (concat (r.to_string software_reset_attempts) (concat " attempts: " reset_error))))

  unfoldable pub software_reset : Stage r (Unit {0})
  software_reset = do
    unsent ← reset_attempts software_reset_attempts ""
    on_option unsent (delay r software_reset_delay_ms) reset_failed

  unfoldable pub sequence : Stage r (Unit {0})
  sequence = do
    run_power r
    delay r inter_test_delay_ms
    run_i2c r
    delay r inter_test_delay_ms
    run_grove_i2c r
    delay r grove_i2c_to_uart_delay_ms
    run_uart r
    delay r inter_test_delay_ms
    run_grove_uart r
    delay r inter_test_delay_ms
    run_spi r
    delay r inter_test_delay_ms
    run_usb r
    delay r inter_test_delay_ms
    run_gpio r

  -- What run_ publishes after the cleanup of a sequence.
  unfoldable pub finish_run : Option (Unit {0}) → Stage r (Unit {0})
  finish_run passed = do
    canceled ← cancel_requested r
    branch canceled (publish r CapFixtureRunState.canceled "Fixture test canceled") (
        on_option passed (done tt)
          (λ _. publish r CapFixtureRunState.passed "All fixture tests passed"))

  -- run_ after the reset, which ended with or without a result.
  unfoldable pub after_reset : Option (Unit {0}) → Machine r → Machine r
  after_reset none m = (cleanup m).1
  after_reset (some _) m = let (passed, m') = sequence m in (finish_run passed (cleanup m').1).1

  unfoldable pub run : Machine r → Machine r
  run m = let (ready, m') = (prepare >> software_reset) m in after_reset ready m'

  abbrev pub set_world : (r.World → r.World) → Machine r → Machine r
  set_world f m = record m { world = f m.world }

  -- start with the run of the worker that it starts; `joinable` says that there is a worker already.
  unfoldable pub start : Bool → Machine r → Machine r
  start joinable m =
      if joinable
      then m
      else run (
          show r (published CapFixtureRunState.running "Resetting CAP fixture")
            (set_world r.clear_cancel m))

  abbrev pub run_is_running : CapFixtureRunState → Bool
  run_is_running CapFixtureRunState.running = true
  run_is_running CapFixtureRunState.idle = false
  run_is_running CapFixtureRunState.passed = false
  run_is_running CapFixtureRunState.failed = false
  run_is_running CapFixtureRunState.canceled = false

  -- cancel, which another thread calls during a run.
  unfoldable pub cancel : Machine r → Machine r
  cancel m = if run_is_running m.model.snapshot.state then set_world r.request_cancel m else m
