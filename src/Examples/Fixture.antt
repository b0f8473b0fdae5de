-- ===== src/Examples/Fixture.antt =====
-- src/model/cap_fixture_test_model.cpp: runs against fixtures that are written out.
use factory_test.Common.{
  ◌≡◌, ◌↔◌, refl, Bool, true, false, ℕ, ◌+◌, ◌==◌, ◌⊎◌, ◌++◌, ◌≤◌, some, List, [], ◌∷◌,
  if◌then◌else◌, arith,
}
use factory_test.Files.{Result, ok, err, Action}
use factory_test.CapFixture.Types.{CapFixtureRunState, Rig}
use factory_test.CapFixture.Frames.Check.{parts, validate_uart_frame_iff}
use factory_test.CapFixture.Buses.{
  grove_i2c_command, run_grove_i2c, run_i2c, run_power, run_spi, spi_expected,
}
use factory_test.CapFixture.Frames.{
  crc16_modbus, crc_bits, crc_bytes, hex_bytes, make_uart_frame, prefix, same_bytes, suffix,
  validate_uart_frame,
}
use factory_test.CapFixture.Lines.{caught, recover_usb, run_gpio, run_usb, take_samples}
use factory_test.CapFixture.Run.{
  cleanup, finish_run, ignored, recover_grove_i2c, recover_grove_uart, release_lines,
  software_reset, reset_attempts, sequence, start, run, after_reset, prepare, power_up, new_model,
}
use factory_test.CapFixture.Stage.{
  ◌>>◌, ◌>>=◌, call_or_fail, hardware, or_fail, on_result, done, change_model, now, before_deadline,
  begin_item, branch, cancel_requested, change_item, fail, on_option, pass_item, publish, sleep,
  stop, the_model, Machine,
}
use factory_test.CapFixture.Steps.{
  delay, expect, hold_gpio_outputs_high, otherwise, read_reg, select_host_pin_function,
  wait_for_idle, write_reg,
}
use factory_test.CapFixture.Uart.{
  close_uart, consume, find_header, grove_hello, grove_uart_channel, on_received, prepare_uart_test,
  read_loop, read_uart_frame, ready_loop, run_grove_uart, run_uart, uart_hello, ten_zeros,
  rx_payload, hello, data_frame,
}
use factory_test.CapFixture.Steps.Waits.{ClockLaws}
use factory_test.CapFixture.Timely.Delays.{delay-ends}
use factory_test.CapFixture.Timely.Stages.{ServiceLaws}
use factory_test.CapFixture.Timely.Runs.{start-ends_with_result}
use factory_test.CapFixture.Uart.Stream.{receive_chunks, first_frame, receive_chunks-first_frame}
use factory_test.CapFixture.Items.{states}
use factory_test.CapFixture.Run.Cleanup.{start-cleared}
use factory_test.CapFixture.Run.Passed.{start-passed, all_passed}
use factory_test.CapFixture.Run.Canceled.{start-prepare_failed, start-canceled_running, usb_failed}

-- A fixture with a clock, the last command and what it will send over UART.
record Bench : Type 0 where
  clock : ℕ
  command : ℕ
  reply : List ℕ

abbrev fine : Action Bench (Unit {0})
fine w = (ok tt, w)

abbrev answer_to : List ℕ → List ℕ
answer_to bytes =
    if same_bytes bytes hello
    then make_uart_frame 0x31 ten_zeros 0
    else if same_bytes bytes data_frame
    then make_uart_frame 0x03 rx_payload 10
    else []

abbrev status_of : ℕ → ℕ
status_of command = if command == 0x02 then 2 else if command == 0x03 then 1 else 0

abbrev read : ℕ → ℕ → Action Bench (List ℕ)
read reg size w = (
  ok (
      if reg == 0x01
      then w.command ∷ []
      else if reg == 0x02
      then 0xA5 ∷ 0x5A ∷ []
      else if reg == 0x03
      then status_of w.command ∷ []
      else if reg == 0x08
      then 19 ∷ []
      else 7 ∷ []),
  w,
)

abbrev write : ℕ → List ℕ → Action Bench (Unit {0})
write reg bytes w = (
  ok tt,
  if reg == 0x01 then record w { command = elim bytes [ [] ↦ 0 | byte ∷ _ ↦ byte ] } else w,
)

-- A sleep takes ten seconds longer than is asked for.
abbrev fixture : Bool → Result (Unit {0}) → Rig
fixture canceled bus = record {
  World = Bench;
  is_canceled = λ w. (canceled, w);
  clear_cancel = λ w. w;
  request_cancel = λ w. w;
  now = λ w. (w.clock, w);
  sleep = λ n w. record w { clock = w.clock + n + 10000 };
  to_string = λ n. "n";
  set_external_bus_uart_mode = λ w. (bus, w);
  set_external_bus_i2c_mode = λ b. fine;
  set_ext_5v_enabled = λ b. fine;
  set_grove_5v_enabled = λ b. fine;
  write_register = write;
  read_register = read;
  read_charge_report = λ w. (ok 3, w);
  spi_transfer = λ bytes speed w. (ok spi_expected, w);
  select_usb_function = fine;
  select_gpio_function = fine;
  reset_usb_hub = fine;
  wait_for_usb_device = λ vendor product timeout. fine;
  wait_for_usb_disconnect = λ vendor product timeout. fine;
  receive_usb_hid_text = λ vendor product text timeout before. before;
  set_gpio_test_outputs = λ b. fine;
  read_gpio_test_output_levels = λ w. (ok 7, w);
  set_gpio_test_inputs = fine;
  uart_open = fine;
  uart_close = λ w. w;
  uart_read_available = λ w. (ok w.reply, record w { reply = [] });
  uart_write = λ bytes w. (ok tt, record w { reply = answer_to bytes });
}

abbrev bench : Bench
bench = record { clock = 0; command = 0; reply = [] }

abbrev machine : (canceled : Bool) (bus : Result (Unit {0})) → Machine (fixture canceled bus)
machine canceled bus = record { model = new_model; world = bench; overrun = false }

-- The run of this fixture passes.
passes :
    (start (fixture false (ok tt)) false (machine false (ok tt))).model.snapshot.state
    ≡ CapFixtureRunState.passed
unfolding grove_i2c_command run_grove_i2c run_i2c run_power run_spi crc16_modbus crc_bits crc_bytes
    hex_bytes make_uart_frame prefix same_bytes suffix validate_uart_frame caught recover_usb
    run_gpio run_usb take_samples cleanup finish_run ignored recover_grove_i2c recover_grove_uart
    release_lines software_reset reset_attempts sequence start run after_reset prepare power_up ◌>>◌
    ◌>>=◌ call_or_fail hardware or_fail on_result done change_model now before_deadline begin_item
    branch cancel_requested change_item fail on_option pass_item publish sleep stop the_model delay
    expect hold_gpio_outputs_high otherwise read_reg select_host_pin_function wait_for_idle
    write_reg close_uart consume find_header grove_hello grove_uart_channel on_received
    prepare_uart_test read_loop read_uart_frame ready_loop run_grove_uart run_uart uart_hello
passes = refl

start-passed_example :
    states (start (fixture false (ok tt)) false (machine false (ok tt))).model.snapshot.items
    ≡ all_passed
unfolding states
start-passed_example =
    start-passed (fixture false (ok tt)) (machine false (ok tt)) _ _ _ _ _ _ _ _ refl passes

start-cleared_example :
    ((start (fixture false (ok tt)) false (machine false (ok tt))).model.cap_grove_i2c_active
      ≡ false)
    × ((start (fixture false (ok tt)) false (machine false (ok tt))).model.cap_grove_uart_active
        ≡ false)
    × ((start (fixture false (ok tt)) false (machine false (ok tt))).model.uart_session ≡ false)
start-cleared_example = start-cleared (fixture false (ok tt)) (machine false (ok tt))

start-prepare_failed_example :
    ((start
        (fixture false (err "no bus"))
        false
        (machine false (err "no bus"))).model.snapshot.state
      ≡ CapFixtureRunState.failed)
    × (states
          (start
            (fixture false (err "no bus"))
            false
            (machine false (err "no bus"))).model.snapshot.items
        ≡ usb_failed)
start-prepare_failed_example =
    start-prepare_failed (fixture false (err "no bus")) bench "no bus" refl

start-canceled_running_example :
    (start (fixture true (ok tt)) false (machine true (ok tt))).model.snapshot.state
    ≡ CapFixtureRunState.running
start-canceled_running_example =
    start-canceled_running (fixture true (ok tt)) (machine true (ok tt)) (λ w. refl) (λ w. refl)
      (λ w. refl)

validate_uart_frame_iff_example :
    (validate_uart_frame (parts 0xA5 0x5A 0x31 0 ten_zeros 1 2) 0x31 0 ten_zeros ≡ ok tt)
    ↔ (parts 0xA5 0x5A 0x31 0 ten_zeros 1 2 ≡ make_uart_frame 0x31 ten_zeros 0)
validate_uart_frame_iff_example =
    validate_uart_frame_iff 0x31 0 ten_zeros 0xA5 0x5A 0x31 0 ten_zeros 1 2 refl refl (omega arith)
      (omega arith)

-- The clock of the fixtures keeps the laws.
fixture_clock : ClockLaws (fixture false (ok tt))
fixture_clock = record {
  time = λ w. w.clock;
  at_now = λ w. refl;
  after_now = λ w. omega arith;
  after_sleep = λ n w. omega arith;
  after_canceled = λ w. omega arith;
}

delay-ends_example :
    ((delay (fixture false (ok tt)) 1500 (machine false (ok tt))).1.overrun ≡ false)
    × ((delay (fixture false (ok tt)) 1500 (machine false (ok tt))).0 ≡ some tt)
    × (fixture_clock.time bench + 1500
        ≤ fixture_clock.time (delay (fixture false (ok tt)) 1500 (machine false (ok tt))).1.world)
delay-ends_example =
    delay-ends (fixture false (ok tt)) fixture_clock 1500 (machine false (ok tt)) (λ w. refl)

-- READY in two chunks, after zeros, with the header split between them.
abbrev ready_chunks : List (List ℕ)
ready_chunks = (0 ∷ 0 ∷ 0xA5 ∷ []) ∷ (0x5A ∷ 0x31 ∷ 0 ∷ ten_zeros ++ 0x12 ∷ 0x34 ∷ []) ∷ []

receive_chunks-first_frame_example : receive_chunks [] ready_chunks ≡ first_frame [] ready_chunks
receive_chunks-first_frame_example = receive_chunks-first_frame ready_chunks

-- So does the clock of one whose bus answers as is said, and its services take no time.
abbrev bus_clock : (bus : Result (Unit {0})) → ClockLaws (fixture false bus)
bus_clock bus = record {
  time = λ w. w.clock;
  at_now = λ w. refl;
  after_now = λ w. omega arith;
  after_sleep = λ n w. omega arith;
  after_canceled = λ w. omega arith;
}

write-clock :
    (reg : ℕ) (bytes : List ℕ) (b : Bool) (w : Bench)
    → w.clock
      ≤ (if b
          then record w { command = elim bytes as (λ _. ℕ) [ [] ↦ 0 | byte ∷ _ ↦ byte ] }
          else w).clock
write-clock reg bytes true w = omega arith
write-clock reg bytes false w = omega arith

bus_services : (bus : Result (Unit {0})) → ServiceLaws (fixture false bus) (bus_clock bus)
bus_services bus = record {
  uart_mode = record { at_call = λ w. omega arith };
  i2c_mode = λ b. record { at_call = λ w. omega arith };
  ext_5v = λ b. record { at_call = λ w. omega arith };
  grove_5v = λ b. record { at_call = λ w. omega arith };
  write = λ reg bytes. record { at_call = λ w. write-clock reg bytes (reg == 0x01) w };
  read = λ reg size. record { at_call = λ w. omega arith };
  charge = record { at_call = λ w. omega arith };
  spi = λ bytes speed. record { at_call = λ w. omega arith };
  usb_function = record { at_call = λ w. omega arith };
  gpio_function = record { at_call = λ w. omega arith };
  hub = record { at_call = λ w. omega arith };
  device = λ vendor product timeout. record { at_call = λ w. omega arith };
  disconnect = λ vendor product timeout. record { at_call = λ w. omega arith };
  hid_text = λ vendor product text timeout before forward. forward;
  outputs = λ b. record { at_call = λ w. omega arith };
  levels = record { at_call = λ w. omega arith };
  inputs = record { at_call = λ w. omega arith };
  uart_open = record { at_call = λ w. omega arith };
  uart_close = λ w. omega arith;
  uart_read = record { at_call = λ w. omega arith };
  uart_write = λ bytes. record { at_call = λ w. omega arith };
}

start-ends_with_result_example :
    ((start (fixture false (err "no bus")) false (machine false (err "no bus"))).overrun ≡ false)
    × (((start
            (fixture false (err "no bus"))
            false
            (machine false (err "no bus"))).model.snapshot.state
          ≡ CapFixtureRunState.passed)
        ⊎ ((start
              (fixture false (err "no bus"))
              false
              (machine false (err "no bus"))).model.snapshot.state
            ≡ CapFixtureRunState.failed))
start-ends_with_result_example =
    start-ends_with_result (fixture false (err "no bus")) (bus_clock (err "no bus"))
      (machine false (err "no bus")) (bus_services (err "no bus")) (λ w. refl)
