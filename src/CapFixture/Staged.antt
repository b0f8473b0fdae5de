-- ===== src/CapFixture/Staged.antt =====
-- src/model/cap_fixture_test_model.cpp: how the stages Power, I2C, Grove I2C, SPI, USB and GPIO end.
use factory_test.Common.{ℕ, zero, suc, String, List, Option, none, some}
use factory_test.CapFixture.Types.{CapFixtureItemState, Rig}
use factory_test.CapFixture.Stage.{Machine, Stage, ◌>>=◌, done, stop, on_option}
use factory_test.CapFixture.Buses.{run_power, run_i2c, grove_i2c_command, run_grove_i2c, run_spi}
use factory_test.CapFixture.Lines.{recover_usb, run_usb, take_samples, caught, all_read, run_gpio}
use factory_test.CapFixture.Outcomes.{
  Condition, After, Ends, Failing, Ends-then, Ends-bind, Ends-done, ends_rules,
}
use factory_test.CapFixture.Moved.{
  Ends-delay, Ends-write_reg, Ends-read_reg, Ends-expect, Ends-wait_for_idle,
  Ends-hold_gpio_outputs_high, Ends-otherwise, Ends-select_host_pin_function,
}
use factory_test.CapFixture.Items.{
  Running, Stopped, put, running_fails, running_stops, Ends-begin_item, Ends-pass_item,
}

pub ruleset stage_rules = (
  ends_rules, Ends-delay, Ends-write_reg, Ends-read_reg, Ends-expect, Ends-wait_for_idle,
  Ends-hold_gpio_outputs_high, Ends-otherwise, Ends-select_host_pin_function, Ends-begin_item,
  Ends-pass_item, running_fails, running_stops,
)

module _ {r : Rig} {ss : List CapFixtureItemState} where
  Ends-grove_i2c_command : Ends r (Running ss) (Running ss) (Stopped r) (grove_i2c_command r)
  unfolding grove_i2c_command
  Ends-grove_i2c_command = search stage_rules depth 80

  Ends-recover_usb :
      (error : String) → Ends r (Running ss) (Running ss) (Stopped r) (recover_usb r error)
  unfolding recover_usb
  Ends-recover_usb error = search stage_rules depth 80

  Ends-take_samples :
      (samples levels : ℕ)
      → Ends r (Running ss) (Running ss) (Stopped r) (take_samples r samples levels)
  unfolding take_samples
  Ends-take_samples zero levels = Ends-done levels
  Ends-take_samples (suc samples) levels = search (stage_rules, Ends-take_samples samples) depth 80

module _ {r : Rig} {ss : List CapFixtureItemState} where
  pub Ends-run_power :
      Ends r (Running ss) (Running (put 0 CapFixtureItemState.passed ss)) (Stopped r) (run_power r)
  unfolding run_power
  Ends-run_power = search stage_rules depth 80

  pub Ends-run_i2c :
      Ends r (Running ss) (Running (put 1 CapFixtureItemState.passed ss)) (Stopped r) (run_i2c r)
  unfolding run_i2c
  Ends-run_i2c = search stage_rules depth 80

  pub Ends-run_grove_i2c :
      Ends r
        (Running ss)
        (Running (put 2 CapFixtureItemState.passed ss))
        (Stopped r)
        (run_grove_i2c r)
  unfolding run_grove_i2c
  Ends-run_grove_i2c = search (stage_rules, Ends-grove_i2c_command) depth 120

  pub Ends-run_spi :
      Ends r (Running ss) (Running (put 5 CapFixtureItemState.passed ss)) (Stopped r) (run_spi r)
  unfolding run_spi
  Ends-run_spi = search stage_rules depth 80

  pub Ends-run_usb :
      Ends r (Running ss) (Running (put 6 CapFixtureItemState.passed ss)) (Stopped r) (run_usb r)
  unfolding run_usb
  Ends-run_usb = search (stage_rules, Ends-recover_usb) depth 120

module _ {r : Rig} {P E F Q : Condition} {A B : Type 0} where
  After-caught :
      (f : Option A → Stage r B) (o : Option A) (m : Machine r)
      → After P F o m.model
      → ((a : A) → Ends r P Q E (f (some a)))
      → Ends r F Q E (f none)
      → After Q E (f o m).0 (f o m).1.model
  unfolding After
  After-caught f none m h next failed = failed.at m h
  After-caught f (some a) m h next failed = (next a).at m h

  -- What follows a step that is caught ends from both of its ends.
  caught-Ends :
      (s : Stage r A) (f : Option A → Stage r B)
      → Ends r P P F s
      → ((a : A) → Ends r P Q E (f (some a)))
      → Ends r F Q E (f none)
      → Ends r P Q E (caught r s >>= f)
  unfolding caught ◌>>=◌
  caught-Ends s f first next failed = record {
    at = λ m h. After-caught f (s m).0 (s m).1 (first.at m h) next failed;
  }

module _ {r : Rig} {P E Q : Condition} {A B : Type 0} where
  pub Ends-caught :
      (s : Stage r A) (f : Option A → Stage r B)
      → Ends r P P E s
      → ((a : A) → Ends r P Q E (f (some a)))
      → Ends r E Q E (f none)
      → Ends r P Q E (caught r s >>= f)
  Ends-caught = caught-Ends

  -- A step that keeps the condition at both of its ends.
  pub Ends-caught_kept :
      (s : Stage r A) (f : Option A → Stage r B)
      → Ends r P P P s
      → ((o : Option A) → Ends r P Q E (f o))
      → Ends r P Q E (caught r s >>= f)
  Ends-caught_kept s f first next = caught-Ends s f first (λ a. next (some a)) (next none)

-- A step without a result, and whatever would follow it.
Ends-nothing :
    {r : Rig} {E Q : Condition} {B : Type 0} (f : ℕ → Stage r B)
    → Ends r E Q E (all_read r none >>= f)
unfolding on_option stop After ◌>>=◌
Ends-nothing f = record { at = λ m h. h }

-- The levels that were read, and what follows them.
Ends-all_read :
    {r : Rig} {P E Q : Condition} {B : Type 0} (levels : ℕ) (f : ℕ → Stage r B)
    → Ends r P Q E (f levels)
    → Ends r P Q E (all_read r (some levels) >>= f)
unfolding on_option done After ◌>>=◌
Ends-all_read levels f next = record { at = λ m h. next.at m h }

module _ {r : Rig} {ss : List CapFixtureItemState} where
  pub Ends-run_gpio :
      Ends r (Running ss) (Running (put 7 CapFixtureItemState.passed ss)) (Stopped r) (run_gpio r)
  unfolding run_gpio
  Ends-run_gpio =
      search (stage_rules, Ends-caught, Ends-take_samples, Ends-nothing, Ends-all_read) depth 160
