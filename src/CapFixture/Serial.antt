-- ===== src/CapFixture/Serial.antt =====
-- src/model/cap_fixture_test_model.cpp: how the stages UART and Grove UART end.
use factory_test.Common.{true, false, ℕ, zero, suc, String, List}
use factory_test.CapFixture.Types.{CapFixtureItemState, CapFixtureTestModel, Rig}
use factory_test.CapFixture.Stage.{Stage, ◌>>◌, done}
use factory_test.CapFixture.Uart.{
  Received, frame, kept, on_received, read_loop, read_uart_frame, ready_loop, close_uart,
  prepare_uart_test, uart_hello, run_uart, grove_hello, grove_uart_channel, run_grove_uart,
  validated,
}
use factory_test.CapFixture.Outcomes.{
  Condition, After, Ends, Ends-overran, Ends-done, Ends-bind, Ends-branch, Ends-or_fail, Ends-seq,
  Ends-bind, Ends-branch, Ends-on_result, Ends-cancel_requested, Ends-hardware, Ends-on_result,
  Ends-cancel_requested,
}
use factory_test.CapFixture.Items.{Running, Stopped, put, running_fails}
use factory_test.CapFixture.Staged.{stage_rules}

pub Ends-on_received :
    {r : Rig} {P E Q : Condition} {A : Type 0} (received : Received) {s t : List ℕ → Stage r A}
    → ((bytes : List ℕ) → Ends r P Q E (s bytes))
    → ((bytes : List ℕ) → Ends r P Q E (t bytes))
    → Ends r P Q E (on_received received s t)
unfolding on_received
Ends-on_received (frame bytes) s t = s bytes
Ends-on_received (kept bytes) s t = t bytes

Ends-read_loop :
    {r : Rig} {P E : Condition} (rounds deadline : ℕ) (received : List ℕ)
    → Ends r P P E (read_loop r rounds deadline received)
unfolding read_loop
Ends-read_loop zero deadline received = Ends-seq Ends-overran (Ends-done _)
Ends-read_loop {r} {P} {E} (suc rounds) deadline received =
    search (stage_rules, Ends-on_received, Ends-read_loop {r = r} {P = P} {E = E} rounds deadline)
      depth 60

Ends-read_uart_frame :
    {r : Rig} {P E : Condition} (timeout : ℕ) → Ends r P P E (read_uart_frame r timeout)
unfolding read_uart_frame
Ends-read_uart_frame timeout = search (stage_rules, Ends-read_loop) depth 60

pub Ends-close_uart :
    {r : Rig} {P E : Condition}
    → ((m : CapFixtureTestModel) → P m → P (record m { uart_session = false }))
    → Ends r P P E (close_uart r)
unfolding close_uart After
Ends-close_uart closed = record { at = λ m h. closed m.model h }

module _ {r : Rig} {ss : List CapFixtureItemState} where
  Ends-ready_loop :
      (stage : String) (rounds deadline command status : ℕ)
      → Ends r
          (Running ss)
          (Running ss)
          (Stopped r)
          (ready_loop r stage rounds deadline command status)
  unfolding ready_loop
  Ends-ready_loop stage zero deadline command status = search stage_rules
  Ends-ready_loop stage (suc rounds) deadline command status =
      search (stage_rules, Ends-ready_loop stage rounds deadline) depth 60

  Ends-validated :
      (stage message : String) (bytes : List ℕ) (type size : ℕ) (payload : List ℕ)
      → Ends r
          (Running ss)
          (Running ss)
          (Stopped r)
          (validated r stage message bytes type size payload >> done true)
  Ends-validated stage message bytes type size payload =
      Ends-seq (Ends-or_fail stage message _ (running_fails ss)) (Ends-done true)

  Ends-uart_hello :
      (attempts : ℕ) → Ends r (Running ss) (Running ss) (Stopped r) (uart_hello r attempts)
  unfolding uart_hello
  Ends-uart_hello zero = Ends-done false
  Ends-uart_hello (suc attempts) = Ends-bind Ends-cancel_requested λ canceled.
      Ends-branch canceled (Ends-done false) (
        Ends-seq (search stage_rules) (
          Ends-bind (Ends-read_uart_frame 700) λ reply.
            Ends-on_result reply (λ _. Ends-uart_hello attempts)
              (λ ready. Ends-validated _ _ ready _ _ _)))

  Ends-grove_hello :
      (attempts : ℕ) → Ends r (Running ss) (Running ss) (Stopped r) (grove_hello r attempts)
  unfolding grove_hello
  Ends-grove_hello zero = Ends-done false
  Ends-grove_hello (suc attempts) = Ends-bind Ends-cancel_requested λ canceled.
      Ends-branch canceled (Ends-done false) (
        Ends-bind (Ends-hardware _) λ sent.
          Ends-on_result sent (λ _. Ends-grove_hello attempts)
            λ _. Ends-bind (Ends-read_uart_frame 700) λ reply.
              Ends-on_result reply (λ _. Ends-grove_hello attempts)
                (λ ready. Ends-validated _ _ ready _ _ _))

  Ends-grove_uart_channel : Ends r (Running ss) (Running ss) (Stopped r) (grove_uart_channel r)
  unfolding grove_uart_channel
  Ends-grove_uart_channel = search stage_rules depth 60

module _ {r : Rig} {ss : List CapFixtureItemState} where
  Ends-prepare_uart_test :
      (stage : String) → Ends r (Running ss) (Running ss) (Stopped r) (prepare_uart_test r stage)
  unfolding prepare_uart_test
  Ends-prepare_uart_test stage = search (stage_rules, Ends-close_uart, Ends-ready_loop) depth 60

module _ {r : Rig} {ss : List CapFixtureItemState} where
  pub Ends-run_uart :
      Ends r (Running ss) (Running (put 3 CapFixtureItemState.passed ss)) (Stopped r) (run_uart r)
  unfolding run_uart
  Ends-run_uart =
      search (stage_rules, Ends-prepare_uart_test, Ends-uart_hello, Ends-read_uart_frame) depth 120

  pub Ends-run_grove_uart :
      Ends r
        (Running ss)
        (Running (put 4 CapFixtureItemState.passed ss))
        (Stopped r)
        (run_grove_uart r)
  unfolding run_grove_uart
  Ends-run_grove_uart =
      search
        (
          stage_rules, Ends-prepare_uart_test, Ends-grove_hello, Ends-grove_uart_channel,
          Ends-read_uart_frame,
        )
        depth 120
