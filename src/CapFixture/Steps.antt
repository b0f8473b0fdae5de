-- ===== src/CapFixture/Steps.antt =====
-- src/model/cap_fixture_test_model.cpp: delays, register accesses and pin functions. A delay's reason and
-- the logging are left out.
use factory_test.Common.{
  Bool, true, not, ◌&&◌, ◌==◌, ℕ, ◌+◌, String, List, [], ◌∷◌, Option, none, some, if◌then◌else◌,
}
use factory_test.Files.{Result, ok, err}
use factory_test.CapFixture.Types.{Rig}
use factory_test.CapFixture.Constants.{gpio_hold_refresh_ms}
use factory_test.CapFixture.Frames.{byte_at}
use factory_test.CapFixture.Stage.{
  Stage, ◌>>=◌, ◌>>◌, done, stop, change_model, fail, hardware, call_or_fail, the_model, branch,
  on_option, on_result, cancel_requested, now, sleep, before_deadline,
}
pub mod Waits

module _ (r : Rig) where
  -- The body of delay_'s loop: it leaves the loop if the run is canceled.
  abbrev pub delay_round : Stage r (Option (Unit {0}))
  delay_round = do
    canceled ← cancel_requested r
    branch canceled (done (some tt)) (sleep r 10 >> done none)

  -- A round sleeps ten milliseconds at least, so that as many rounds as milliseconds are enough.
  unfoldable pub delay : ℕ → Stage r (Unit {0})
  delay milliseconds = do
    time ← now r
    interrupted ← before_deadline r (milliseconds + 1) (time + milliseconds) delay_round
    on_option interrupted (done tt) (λ _. stop)

  unfoldable pub write_reg : String → ℕ → List ℕ → Stage r (Unit {0})
  write_reg stage reg data_bytes = do
    canceled ← cancel_requested r
    branch canceled stop
        (call_or_fail r stage "I2C register write failed: " (r.write_register reg data_bytes))

  -- The overload for one value.
  abbrev pub write_value : String → ℕ → ℕ → Stage r (Unit {0})
  write_value stage reg value = write_reg stage reg (value ∷ [])

  unfoldable pub read_reg : String → ℕ → ℕ → Stage r (List ℕ)
  read_reg stage reg size = do
    canceled ← cancel_requested r
    branch canceled stop
        (call_or_fail r stage "I2C register read failed: " (r.read_register reg size))

  -- A register of one byte.
  abbrev pub read_value : String → ℕ → Stage r ℕ
  read_value stage reg = do bytes ← read_reg stage reg 1; done (byte_at 0 bytes)

  -- A test that fails the stage with a message if it is false.
  unfoldable pub expect : String → Bool → String → Stage r (Unit {0})
  expect stage test message = branch test (done tt) (fail r stage message)

  -- `if (!step) return fail_(stage, message);`
  unfoldable pub otherwise : {A : Type 0} → Stage r A → String → String → Stage r A
  otherwise step stage message m =
      let (o, m') = step m in on_option o (fail r stage message) done m'

  -- Polling of the status register, until it is IDLE or the time is over.
  abbrev pub status_round : String → Stage r (Option (Unit {0}))
  status_round stage = do
    status ← read_value stage 0x03
    branch (status == 0) (done (some tt)) (delay 50 >> done none)

  unfoldable pub wait_for_idle : String → ℕ → String → Stage r (Unit {0})
  wait_for_idle stage timeout message = do
    time ← now r
    idle ← before_deadline r (timeout + 1) (time + timeout) (status_round stage)
    on_option idle (fail r stage message) (λ _. done tt)

  abbrev pub hold_round : String → Stage r (Option (Unit {0}))
  hold_round stage = do
    canceled ← cancel_requested r
    branch canceled (done (some tt)) (do
      call_or_fail r stage "GPIO HIGH hold failed: " (r.set_gpio_test_outputs true)
      sleep r gpio_hold_refresh_ms
      done none)

  unfoldable pub hold_gpio_outputs_high : String → ℕ → Stage r (Unit {0})
  hold_gpio_outputs_high stage milliseconds = do
    time ← now r
    interrupted ← before_deadline r (milliseconds + 1) (time + milliseconds) (hold_round stage)
    on_option interrupted
        (call_or_fail r stage "final GPIO HIGH hold write failed: " (r.set_gpio_test_outputs true))
        (λ _. stop)

  abbrev pub pin_function_selected : Bool → Result (Unit {0}) → Stage r (Result (Unit {0}))
  pin_function_selected usb_enabled result =
      on_result result (λ message. done (err message))
        (λ _.
          change_model r (λ m. record m {
            host_pin_function_known = true;
            host_usb_function_selected = usb_enabled;
          })
          >> done (ok tt))

  abbrev pub same_bool : Bool → Bool → Bool
  same_bool a b = if a then b else not b

  unfoldable pub select_host_pin_function : Bool → Stage r (Result (Unit {0}))
  select_host_pin_function usb_enabled = do
    m ← the_model r
    branch (m.host_pin_function_known && same_bool m.host_usb_function_selected usb_enabled)
        (done (ok tt))
        (hardware r (if usb_enabled then r.select_usb_function else r.select_gpio_function)
          >>= pin_function_selected usb_enabled)
