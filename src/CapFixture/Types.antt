-- ===== src/CapFixture/Types.antt =====
-- src/model/cap_fixture_test_model.h: the data of the CAP fixture test. `Rig` is what the test uses of
-- the platform's services, the clock and the flag that another thread sets.
use factory_test.Common.{Bool, ℕ, String, List}
use factory_test.Files.{Action}

pub data CapFixtureRunState : Type 0 where
  idle running passed failed canceled : CapFixtureRunState

pub data CapFixtureItemState : Type 0 where
  pending running passed failed : CapFixtureItemState

abbrev pub cap_fixture_item_state_text : CapFixtureItemState → String
cap_fixture_item_state_text CapFixtureItemState.running = "RUN"
cap_fixture_item_state_text CapFixtureItemState.passed = "PASS"
cap_fixture_item_state_text CapFixtureItemState.failed = "FAIL"
cap_fixture_item_state_text CapFixtureItemState.pending = "WAIT"

pub record CapFixtureItemSnapshot : Type 0 where
  pub name : String
  pub state : CapFixtureItemState
  pub detail : String

pub record CapFixtureSnapshot : Type 0 where
  pub state : CapFixtureRunState
  pub items : List CapFixtureItemSnapshot
  pub active_index : ℕ
  pub headline : String
  pub error_message : String
  pub revision : ℕ

-- The fields of the class but for the thread, its flag and the mutex. The UART session is there or
-- not; its port is part of the world.
pub record CapFixtureTestModel : Type 0 where
  pub snapshot : CapFixtureSnapshot
  pub active_item : ℕ
  pub host_pin_function_known : Bool
  pub host_usb_function_selected : Bool
  pub gpio_test_lines_released : Bool
  pub cap_grove_i2c_active : Bool
  pub cap_grove_uart_active : Bool
  pub host_external_uart_selected : Bool
  pub uart_session : Bool

-- A call that fails has the message that it leaves in its error_message, which it clears first.
pub record Rig : Type 1 where
  pub World : Type 0
  -- cancel_requested_.load()
  pub is_canceled : World → Bool × World
  -- cancel_requested_.store(false) and .exchange(true).
  pub clear_cancel : World → World
  pub request_cancel : World → World
  -- std::chrono::steady_clock in milliseconds, and sleep_for.
  pub now : World → ℕ × World
  pub sleep : ℕ → World → World
  -- std::to_string.
  pub to_string : ℕ → String
  -- platform::gpio.
  pub set_external_bus_uart_mode : Action World (Unit {0})
  pub set_external_bus_i2c_mode : Bool → Action World (Unit {0})
  -- platform::fixture.
  pub set_ext_5v_enabled : Bool → Action World (Unit {0})
  pub set_grove_5v_enabled : Bool → Action World (Unit {0})
  pub write_register : ℕ → List ℕ → Action World (Unit {0})
  pub read_register : ℕ → ℕ → Action World (List ℕ)
  pub read_charge_report : Action World ℕ
  pub spi_transfer : List ℕ → ℕ → Action World (List ℕ)
  pub select_usb_function : Action World (Unit {0})
  pub select_gpio_function : Action World (Unit {0})
  pub reset_usb_hub : Action World (Unit {0})
  pub wait_for_usb_device : ℕ → ℕ → ℕ → Action World (Unit {0})
  pub wait_for_usb_disconnect : ℕ → ℕ → ℕ → Action World (Unit {0})
  pub receive_usb_hid_text : ℕ → ℕ → String → ℕ → Action World (Unit {0}) → Action World (Unit {0})
  pub set_gpio_test_outputs : Bool → Action World (Unit {0})
  pub read_gpio_test_output_levels : Action World ℕ
  pub set_gpio_test_inputs : Action World (Unit {0})
  -- platform::connectivity::UartDebugSession on the one port that is used.
  pub uart_open : Action World (Unit {0})
  pub uart_close : World → World
  pub uart_read_available : Action World (List ℕ)
  pub uart_write : List ℕ → Action World (Unit {0})
