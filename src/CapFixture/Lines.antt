-- ===== src/CapFixture/Lines.antt =====
-- src/model/cap_fixture_test_model.cpp: the stages USB and GPIO.
use Prim.Native.Nat.{bit_and}
use factory_test.Common.{
  Bool, true, false, ◌&&◌, ◌==◌, ℕ, zero, suc, String, concat, [], ◌∷◌, ltb, Option, some,
}
use factory_test.Files.{Result, ok, err}
use factory_test.CapFixture.Types.{Rig}
use factory_test.CapFixture.Constants.{
  usb_item, gpio_item, usb_vendor_id, usb_product_id, usb_function_settle_delay_ms,
  usb_initial_enum_timeout_ms, usb_recovery_enum_timeout_ms, usb_hub_reset_settle_delay_ms,
  inter_test_delay_ms, gpio_sample_count, gpio_sample_interval_ms,
}
use factory_test.CapFixture.Frames.{hex_byte}
use factory_test.CapFixture.Stage.{
  Stage, ◌>>=◌, ◌>>◌, done, stop, change_model, fail, hardware, or_fail, call_or_fail, branch,
  on_option, on_result, cancel_requested, begin_item, pass_item,
}
use factory_test.CapFixture.Steps.{
  expect, delay, write_value, read_value, hold_gpio_outputs_high, select_host_pin_function,
}

module _ (r : Rig) where
  -- The hub is reset and the device is waited for again, unless the run is canceled.
  unfoldable pub recover_usb : String → Stage r (Unit {0})
  recover_usb error = do
    canceled ← cancel_requested r
    branch canceled (fail r "USB" error) (do
      call_or_fail r "USB" "USB hub reset failed: " r.reset_usb_hub
      delay r usb_hub_reset_settle_delay_ms
      call_or_fail r "USB" ""
          (r.wait_for_usb_device usb_vendor_id usb_product_id usb_recovery_enum_timeout_ms))

  abbrev pub enumerated : Result (Unit {0}) → Stage r (Unit {0})
  enumerated result = on_result result recover_usb done

  unfoldable pub run_usb : Stage r (Unit {0})
  run_usb = do
    begin_item r usb_item "Waiting for fixture USB"
    selected ← select_host_pin_function r true
    or_fail r "USB" "USB function switch failed: " selected
    delay r usb_function_settle_delay_ms
    write_value r "USB" 0x10 0x01
    write_value r "USB" 0x01 0x04
    delay r 500
    device ←
        hardware r (r.wait_for_usb_device usb_vendor_id usb_product_id usb_initial_enum_timeout_ms)
    enumerated device
    call_or_fail r "USB" "" (
        r.receive_usb_hid_text usb_vendor_id usb_product_id "HDR-14P" 4000
          (r.write_register 0x10 (0x03 ∷ [])))
    write_value r "USB" 0x10 0x07
    delay r 200
    call_or_fail r "USB" "" (r.wait_for_usb_disconnect usb_vendor_id usb_product_id 3000)
    write_value r "USB" 0x10 0x0F
    delay r 300
    pass_item r usb_item "HID HDR-14P received"

  -- One sample: the outputs are driven again, and register 7 is read.
  abbrev pub sample : Stage r ℕ
  sample = do
    call_or_fail r "GPIO" "GPIO HIGH reassert before sample failed: " (r.set_gpio_test_outputs true)
    read_value r "GPIO" 0x07

  -- The samples that are left, `levels` being the last one.
  unfoldable pub take_samples : ℕ → ℕ → Stage r ℕ
  take_samples zero levels = done levels
  take_samples (suc samples) levels = do
    next ← sample
    branch (ltb 0 samples) (hold_gpio_outputs_high r "GPIO" gpio_sample_interval_ms) (done tt)
    take_samples samples next

  -- A step whose failure does not end the stage.
  unfoldable pub caught : {A : Type 0} → Stage r A → Stage r (Option A)
  caught step m = let (o, m') = step m in (some o, m')

  abbrev pub succeeded : {A : Type 0} → Result A → Bool
  succeeded (ok _) = true
  succeeded (err _) = false

  -- The levels that all samples were read with, or `return false`.
  abbrev pub all_read : Option ℕ → Stage r ℕ
  all_read levels = on_option levels stop done

  unfoldable pub run_gpio : Stage r (Unit {0})
  run_gpio = do
    begin_item r gpio_item "GPIO26/23/22 high"
    selected ← select_host_pin_function r false
    or_fail r "GPIO" "GPIO function switch failed: " selected
    delay r inter_test_delay_ms
    call_or_fail r "GPIO" "GPIO output setup failed: " (r.set_gpio_test_outputs true)
    hold_gpio_outputs_high r "GPIO" 500
    write_value r "GPIO" 0x01 0x06
    hold_gpio_outputs_high r "GPIO" 250
    host_levels ←
        call_or_fail r "GPIO" "host GPIO output readback failed: " r.read_gpio_test_output_levels
    expect r "GPIO" (bit_and host_levels 0x07 == 0x07)
        (concat "host GPIO output bitmap mismatch: 0x" (hex_byte host_levels))
    samples ← caught (take_samples gpio_sample_count 0)
    stopped ← hardware r (r.write_register 0x01 (0x00 ∷ []))
    released ← hardware r r.set_gpio_test_inputs
    change_model r (λ m. record m { gpio_test_lines_released = succeeded released })
    levels ← all_read samples
    expect r "GPIO" (bit_and levels 0x07 == 0x07 && bit_and levels 0xF8 == 0)
        (concat "GPIO bitmap mismatch: 0x" (hex_byte levels))
    or_fail r "GPIO" "GPIO STOP command failed: " stopped
    or_fail r "GPIO" "GPIO final input/high-Z setup failed: " released
    pass_item r gpio_item "Bitmap 0x07"
