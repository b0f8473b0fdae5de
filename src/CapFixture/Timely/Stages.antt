-- ===== src/CapFixture/Timely/Stages.antt =====
-- src/model/cap_fixture_test_model.cpp: every stage of a run has rounds enough for its loops.
use factory_test.Common.{
  ◌≡◌, Bool, true, false, Option, none, some, ℕ, zero, suc, ◌≤◌, String, List, arith,
}
use factory_test.Files.{Action}
use factory_test.CapFixture.Types.{Rig}
use factory_test.CapFixture.Constants.{gpio_hold_refresh_ms}
use factory_test.CapFixture.Stage.{Machine, Stage, on_option, fail, done}
use factory_test.CapFixture.Steps.{
  write_reg, read_reg, expect, otherwise, wait_for_idle, status_round, hold_round,
  hold_gpio_outputs_high, select_host_pin_function,
}
use factory_test.CapFixture.Steps.Waits.{ClockLaws}
use factory_test.CapFixture.Buses.{run_power, run_i2c, grove_i2c_command, run_grove_i2c, run_spi}
use factory_test.CapFixture.Lines.{caught, recover_usb, take_samples, run_usb, run_gpio}
use factory_test.CapFixture.Timely.{
  Forward, Timely, Moves, Timely-done, Timely-stop, Timely-the_model, Timely-change_model,
  Timely-publish, Timely-begin_item, Timely-pass_item, Timely-fail, Timely-hardware,
  Timely-cancel_requested, Timely-sleep, Timely-branch, Timely-on_option, Timely-on_result,
  Timely-bind, Timely-seq, Timely-or_fail, Timely-call_or_fail,
}
use factory_test.CapFixture.Timely.Loops.{
  Moves-some, Moves-branch, Moves-bind, Moves-seq, Moves-slept, Moves-delay, Timely-until,
  Timely-delay,
}

-- The services do not take the clock back, nor does a wait for USB text around a call that does not.
pub record ServiceLaws (r : Rig) (clock : ClockLaws r) : Type 0 where
  pub uart_mode : Forward clock r.set_external_bus_uart_mode
  pub i2c_mode : (b : Bool) → Forward clock (r.set_external_bus_i2c_mode b)
  pub ext_5v : (b : Bool) → Forward clock (r.set_ext_5v_enabled b)
  pub grove_5v : (b : Bool) → Forward clock (r.set_grove_5v_enabled b)
  pub write : (reg : ℕ) (bytes : List ℕ) → Forward clock (r.write_register reg bytes)
  pub read : (reg size : ℕ) → Forward clock (r.read_register reg size)
  pub charge : Forward clock r.read_charge_report
  pub spi : (bytes : List ℕ) (speed : ℕ) → Forward clock (r.spi_transfer bytes speed)
  pub usb_function : Forward clock r.select_usb_function
  pub gpio_function : Forward clock r.select_gpio_function
  pub hub : Forward clock r.reset_usb_hub
  pub device :
      (vendor product timeout : ℕ) → Forward clock (r.wait_for_usb_device vendor product timeout)
  pub disconnect :
      (vendor product timeout : ℕ)
      → Forward clock (r.wait_for_usb_disconnect vendor product timeout)
  pub hid_text :
      (vendor product : ℕ) (text : String) (timeout : ℕ) (before : Action r.World (Unit {0}))
      → Forward clock before
      → Forward clock (r.receive_usb_hid_text vendor product text timeout before)
  pub outputs : (b : Bool) → Forward clock (r.set_gpio_test_outputs b)
  pub levels : Forward clock r.read_gpio_test_output_levels
  pub inputs : Forward clock r.set_gpio_test_inputs
  pub uart_open : Forward clock r.uart_open
  pub uart_close : (w : r.World) → clock.time w ≤ clock.time (r.uart_close w)
  pub uart_read : Forward clock r.uart_read_available
  pub uart_write : (bytes : List ℕ) → Forward clock (r.uart_write bytes)

pub ruleset timely_rules = (
  Timely-done, Timely-stop, Timely-the_model, Timely-change_model, Timely-publish,
  Timely-begin_item, Timely-pass_item, Timely-fail, Timely-hardware, Timely-cancel_requested,
  Timely-sleep, Timely-branch, Timely-on_option, Timely-on_result, Timely-bind, Timely-seq,
  Timely-or_fail, Timely-call_or_fail, Timely-delay,
)

module _ {r : Rig} (clock : ClockLaws r) where
  -- A step around another one that keeps its world.
  around_otherwise :
      {A : Type 0} (stage message : String) (o : Option A) (before m : Machine r)
      → (clock.time before.world ≤ clock.time m.world) × (m.overrun ≡ before.overrun)
      → (let next = on_option o (fail r stage message) done m in
          (clock.time before.world ≤ clock.time next.1.world) × (next.1.overrun ≡ before.overrun))
  unfolding on_option fail done
  around_otherwise stage message none before m h = h
  around_otherwise stage message (some a) before m h = h

module _ {r : Rig} {clock : ClockLaws r} {from : ℕ} where
  pub Timely-otherwise :
      {A : Type 0} {s : Stage r A} (stage message : String)
      → Timely r clock from s
      → Timely r clock from (otherwise r s stage message)
  unfolding otherwise
  Timely-otherwise {s} stage message first = record {
    at = λ m h. around_otherwise clock stage message (s m).0 m (s m).1 (first.at m h);
  }

  pub Timely-caught :
      {A : Type 0} {s : Stage r A} → Timely r clock from s → Timely r clock from (caught r s)
  unfolding caught
  Timely-caught first = record { at = λ m h. first.at m h }

  pub Timely-expect :
      (stage : String) (test : Bool) (message : String)
      → Timely r clock from (expect r stage test message)
  unfolding expect
  Timely-expect stage test message = search timely_rules depth 20

module _ {r : Rig} {clock : ClockLaws r} (laws : ServiceLaws r clock) where
  pub Timely-write_reg :
      {from : ℕ} (stage : String) (reg : ℕ) (bytes : List ℕ)
      → Timely r clock from (write_reg r stage reg bytes)
  unfolding write_reg
  Timely-write_reg stage reg bytes = search (timely_rules, laws.write) depth 40

  pub Timely-read_reg :
      {from : ℕ} (stage : String) (reg size : ℕ) → Timely r clock from (read_reg r stage reg size)
  unfolding read_reg
  Timely-read_reg stage reg size = search (timely_rules, laws.read) depth 40

  pub Timely-select_host_pin_function :
      {from : ℕ} (usb_enabled : Bool) → Timely r clock from (select_host_pin_function r usb_enabled)
  unfolding select_host_pin_function
  Timely-select_host_pin_function true = search (timely_rules, laws.usb_function) depth 40
  Timely-select_host_pin_function false = search (timely_rules, laws.gpio_function) depth 40

  status_round-Moves : (stage : String) (from : ℕ) → Moves r clock from (status_round r stage)
  status_round-Moves stage from =
      Moves-bind (search (timely_rules, Timely-read_reg) depth 20)
        λ status. Moves-branch _ (Moves-some tt) (Moves-delay from 50 (omega arith))

  pub Timely-wait_for_idle :
      {from : ℕ} (stage : String) (timeout : ℕ) (message : String)
      → Timely r clock from (wait_for_idle r stage timeout message)
  unfolding wait_for_idle
  Timely-wait_for_idle {from} stage timeout message =
      Timely-until (status_round-Moves stage) from timeout λ from' o. search timely_rules depth 20

  hold_round-Moves : (stage : String) (from : ℕ) → Moves r clock from (hold_round r stage)
  hold_round-Moves stage from = Moves-bind Timely-cancel_requested λ canceled.
      Moves-branch canceled (Moves-some tt) (
        Moves-seq (search (timely_rules, laws.outputs) depth 20)
          (Moves-slept gpio_hold_refresh_ms (omega arith)))

  pub Timely-hold_gpio_outputs_high :
      {from : ℕ} (stage : String) (milliseconds : ℕ)
      → Timely r clock from (hold_gpio_outputs_high r stage milliseconds)
  unfolding hold_gpio_outputs_high
  Timely-hold_gpio_outputs_high {from} stage milliseconds =
      Timely-until (hold_round-Moves stage) from milliseconds
        λ from' o. search (timely_rules, laws.outputs) depth 20

pub ruleset step_rules = (
  timely_rules, Timely-otherwise, Timely-caught, Timely-expect, Timely-write_reg, Timely-read_reg,
  Timely-select_host_pin_function, Timely-wait_for_idle, Timely-hold_gpio_outputs_high,
)

module _ {r : Rig} {clock : ClockLaws r} (laws : ServiceLaws r clock) {from : ℕ} where
  pub Timely-run_power : Timely r clock from (run_power r)
  unfolding run_power
  Timely-run_power = search (step_rules, laws.ext_5v, laws) depth 80

  pub Timely-run_i2c : Timely r clock from (run_i2c r)
  unfolding run_i2c
  Timely-run_i2c = search step_rules depth 80

  Timely-grove_i2c_command : Timely r clock from (grove_i2c_command r)
  unfolding grove_i2c_command
  Timely-grove_i2c_command = search step_rules depth 80

  pub Timely-run_grove_i2c : Timely r clock from (run_grove_i2c r)
  unfolding run_grove_i2c
  Timely-run_grove_i2c =
      search (step_rules, Timely-grove_i2c_command, laws.grove_5v, laws.i2c_mode, laws) depth 120

  pub Timely-run_spi : Timely r clock from (run_spi r)
  unfolding run_spi
  Timely-run_spi = search (step_rules, laws.spi) depth 80

  Timely-recover_usb : (error : String) → Timely r clock from (recover_usb r error)
  unfolding recover_usb
  Timely-recover_usb error = search (step_rules, laws.device) depth 80

  pub Timely-run_usb : Timely r clock from (run_usb r)
  unfolding run_usb
  Timely-run_usb =
      search
        (step_rules, Timely-recover_usb, laws.device, laws.disconnect, laws.hid_text, laws.write)
        depth 120

  Timely-take_samples : (samples levels : ℕ) → Timely r clock from (take_samples r samples levels)
  unfolding take_samples
  Timely-take_samples zero levels = Timely-done levels
  Timely-take_samples (suc samples) levels =
      search (step_rules, laws.outputs, Timely-take_samples samples) depth 80

  pub Timely-run_gpio : Timely r clock from (run_gpio r)
  unfolding run_gpio
  Timely-run_gpio =
      search (step_rules, Timely-take_samples, laws.outputs, laws.write, laws) depth 160
