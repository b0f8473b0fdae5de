-- ===== src/CapFixture/Timely/Channels.antt =====
-- src/model/cap_fixture_test_model.cpp: the stages UART and Grove UART have rounds enough.
use factory_test.Common.{
  refl, Bool, true, false, ℕ, zero, suc, ◌+◌, ◌≤◌, leb, String, List, if◌then◌else◌, arith,
}
use factory_test.CapFixture.Types.{Rig}
use factory_test.CapFixture.Constants.{
  uart_command_ready_timeout_ms, uart_command_ready_poll_delay_ms,
}
use factory_test.CapFixture.Stage.{Stage}
use factory_test.CapFixture.Steps.Waits.{ClockLaws}
use factory_test.CapFixture.Uart.{
  Received, frame, kept, on_received, read_loop, read_uart_frame, ready_loop, close_uart,
  prepare_uart_test, uart_hello, run_uart, grove_hello, grove_uart_channel, run_grove_uart,
}
use factory_test.CapFixture.Timely.{
  Timely, Timely-done, Timely-hardware, Timely-cancel_requested, Timely-on_result, Timely-branch,
  Timely-bind, Timely-now, Timely-slept,
}
use factory_test.CapFixture.Timely.Loops.{Timely-if, Timely-delayed, still_before}
use factory_test.CapFixture.Timely.Stages.{ServiceLaws, step_rules, Timely-read_reg}

module _ {r : Rig} {clock : ClockLaws r} {from : ℕ} where
  Timely-on_received :
      {A : Type 0} (received : Received) {s t : List ℕ → Stage r A}
      → ((bytes : List ℕ) → Timely r clock from (s bytes))
      → ((bytes : List ℕ) → Timely r clock from (t bytes))
      → Timely r clock from (on_received received s t)
  unfolding on_received
  Timely-on_received (frame bytes) s t = s bytes
  Timely-on_received (kept bytes) s t = t bytes

module _ {r : Rig} {clock : ClockLaws r} (laws : ServiceLaws r clock) where
  -- The loop of read_uart_frame, whose rounds sleep ten milliseconds.
  Timely-read_loop :
      (from rounds deadline : ℕ) (received : List ℕ)
      → 1 ≤ rounds
      → suc deadline ≤ from + rounds
      → Timely r clock from (read_loop r rounds deadline received)
  unfolding read_loop
  Timely-read_loop from zero deadline received positive enough = absurd (omega (arith, positive))
  Timely-read_loop from (suc rounds) deadline received positive enough = Timely-now λ t started.
      Timely-if (leb deadline t) (λ over. Timely-done _)
        λ open_yet.
          let early = still_before deadline t open_yet in
          Timely-bind Timely-cancel_requested λ canceled. Timely-branch canceled (Timely-done _) (
            Timely-bind (Timely-hardware _ laws.uart_read) λ chunk.
              Timely-on_result chunk (λ message. Timely-done _)
                λ bytes.
                  Timely-on_received _ (λ f. Timely-done _)
                    λ rest. Timely-slept 10 (
                      Timely-read_loop (t + 10) rounds deadline rest
                        (omega (arith, enough, early, started)) (omega (arith, enough, started))))

  Timely-read_uart_frame :
      {from : ℕ} (timeout : ℕ) → Timely r clock from (read_uart_frame r timeout)
  unfolding read_uart_frame
  Timely-read_uart_frame timeout =
      Timely-now
        λ t started. Timely-read_loop t (timeout + 1) (t + timeout) _ (omega arith) (omega arith)

  Timely-ready_loop :
      (from : ℕ) (stage : String) (rounds deadline command status : ℕ)
      → 1 ≤ rounds
      → suc deadline ≤ from + rounds
      → Timely r clock from (ready_loop r stage rounds deadline command status)
  unfolding ready_loop
  Timely-ready_loop from stage zero deadline command status positive enough =
      absurd (omega (arith, positive))
  Timely-ready_loop from stage (suc rounds) deadline command status positive enough =
      Timely-now λ t started.
        Timely-if (leb deadline t) (λ over. search step_rules)
          λ open_yet.
            let early = still_before deadline t open_yet in
            Timely-bind (search (step_rules, Timely-read_reg) depth 20) λ command'.
              Timely-bind (search (step_rules, Timely-read_reg) depth 20) λ status'.
                Timely-branch _ (search (step_rules, laws) depth 20) (
                  Timely-delayed t uart_command_ready_poll_delay_ms (
                    Timely-ready_loop (t + uart_command_ready_poll_delay_ms) stage rounds deadline
                      command' status' (omega (arith, enough, early, started))
                      (omega (arith, enough, started))))

  closed : (b : Bool) (w : r.World) → clock.time w ≤ clock.time (if b then r.uart_close w else w)
  closed true w = laws.uart_close w
  closed false w = omega arith

  pub Timely-close_uart : {from : ℕ} → Timely r clock from (close_uart r)
  unfolding close_uart
  Timely-close_uart = record { at = λ m h. (closed m.model.uart_session m.world, refl) }

  Timely-prepare_uart_test :
      {from : ℕ} (stage : String) → Timely r clock from (prepare_uart_test r stage)
  unfolding prepare_uart_test
  Timely-prepare_uart_test stage =
      let ready : (t : ℕ)
          → Timely r clock t (
              ready_loop r stage (uart_command_ready_timeout_ms + 1)
                (t + uart_command_ready_timeout_ms) 0xFF 0xFF) =
        λ t. Timely-ready_loop t stage _ _ _ _ (omega arith) (omega arith) in
      search (step_rules, laws, Timely-close_uart, Timely-now, ready) depth 80

  Timely-uart_hello : {from : ℕ} (attempts : ℕ) → Timely r clock from (uart_hello r attempts)
  unfolding uart_hello
  Timely-uart_hello zero = Timely-done false
  Timely-uart_hello {from} (suc attempts) =
      let again : Timely r clock from (uart_hello r attempts) = Timely-uart_hello attempts in
      search (step_rules, laws.uart_write, Timely-read_uart_frame) depth 80

  pub Timely-run_uart : {from : ℕ} → Timely r clock from (run_uart r)
  unfolding run_uart
  Timely-run_uart =
      search
        (
          step_rules, laws.uart_write, Timely-read_uart_frame, Timely-uart_hello,
          Timely-prepare_uart_test,
        )
        depth 120

  Timely-grove_hello : {from : ℕ} (attempts : ℕ) → Timely r clock from (grove_hello r attempts)
  unfolding grove_hello
  Timely-grove_hello zero = Timely-done false
  Timely-grove_hello {from} (suc attempts) =
      let again : Timely r clock from (grove_hello r attempts) = Timely-grove_hello attempts in
      search (step_rules, laws.uart_write, Timely-read_uart_frame) depth 80

  Timely-grove_uart_channel : {from : ℕ} → Timely r clock from (grove_uart_channel r)
  unfolding grove_uart_channel
  Timely-grove_uart_channel = search (step_rules, laws) depth 80

  pub Timely-run_grove_uart : {from : ℕ} → Timely r clock from (run_grove_uart r)
  unfolding run_grove_uart
  Timely-run_grove_uart =
      search
        (
          step_rules, laws.uart_write, Timely-read_uart_frame, Timely-grove_hello,
          Timely-grove_uart_channel, Timely-prepare_uart_test,
        )
        depth 120
