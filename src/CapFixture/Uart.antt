-- ===== src/CapFixture/Uart.antt =====
-- src/model/cap_fixture_test_model.cpp: reading a frame, and the stages UART and Grove UART.
use factory_test.Common.{
  Bool, true, false, ◌&&◌, ◌==◌, ℕ, zero, suc, ◌+◌, ◌-◌, String, concat, List, [], ◌∷◌, ◌++◌,
  length, ltb, leb, Option, none, some, if◌then◌else◌, is_empty,
}
use factory_test.Files.{Result, ok, err}
use factory_test.CapFixture.Types.{Rig}
use factory_test.CapFixture.Constants.{
  uart_item, grove_uart_item, feature_guard_delay_ms, channel_switch_delay_ms,
  grove_uart_signal_stable_delay_ms, uart_command_ready_timeout_ms,
  uart_command_ready_poll_delay_ms, sysfs_switch_delay_ms,
}
use factory_test.CapFixture.Frames.{hex_byte, make_uart_frame, validate_uart_frame, prefix, suffix}
use factory_test.CapFixture.Stage.{
  overran, Stage, ◌>>=◌, ◌>>◌, done, change_model, fail, hardware, or_fail, call_or_fail, branch,
  on_result, Step, cancel_requested, now, sleep, begin_item, pass_item,
}
use factory_test.CapFixture.Steps.{expect, delay, write_value, read_reg, read_value, wait_for_idle}
pub mod Headers
pub mod Stream

-- received.find("\xA5\x5A").
unfoldable pub find_header : List ℕ → Option ℕ
find_header [] = none
find_header (a ∷ []) = none
find_header (a ∷ b ∷ bytes) =
    let rest = find_header (b ∷ bytes) in
    if a == 0xA5 && b == 0x5A then some 0 else elim rest [ none ↦ none | some i ↦ some (suc i) ]

-- What a round does with the bytes received so far, the new ones included: the frame if it is there,
-- or the bytes that are kept.
pub data Received : Type 0 where
  frame : List ℕ → Received
  kept : List ℕ → Received

abbrev pub keep_last : List ℕ → List ℕ
keep_last received =
    if ltb 1 (length received) then suffix (length received - 1) received else received

unfoldable pub consume : List ℕ → Received
consume received = elim (find_header received) [
  | none ↦ kept (keep_last received)
  | some header ↦
      if leb 16 (length received - header)
      then frame (prefix 16 (suffix header received))
      else kept received
]

unfoldable pub on_received :
    {M A : Type 0} → Received → (List ℕ → Step M A) → (List ℕ → Step M A) → Step M A
on_received (frame bytes) if_frame if_kept = if_frame bytes
on_received (kept bytes) if_frame if_kept = if_kept bytes

abbrev pub ten_zeros : List ℕ
ten_zeros = 0 ∷ 0 ∷ 0 ∷ 0 ∷ 0 ∷ 0 ∷ 0 ∷ 0 ∷ 0 ∷ 0 ∷ []

abbrev pub tx_payload : List ℕ
tx_payload = 0 ∷ 1 ∷ 2 ∷ 3 ∷ 4 ∷ 5 ∷ 6 ∷ 7 ∷ 8 ∷ 9 ∷ []

abbrev pub rx_payload : List ℕ
rx_payload = 9 ∷ 8 ∷ 7 ∷ 6 ∷ 5 ∷ 4 ∷ 3 ∷ 2 ∷ 1 ∷ 0 ∷ []

abbrev pub hello : List ℕ
hello = make_uart_frame 0x30 ten_zeros 0

abbrev pub start_frame : List ℕ
start_frame = make_uart_frame 0x32 ten_zeros 0

abbrev pub data_frame : List ℕ
data_frame = make_uart_frame 0x03 tx_payload 10

module _ (r : Rig) where
  abbrev pub timed_out : List ℕ → Result (List ℕ)
  timed_out received = err (
      concat "UART receive timed out waiting for 16-byte frame (buffered "
        (concat (r.to_string (length received)) " byte(s))"))

  -- The loop of read_uart_frame, with the rounds that are left and the bytes that are kept. A round
  -- without a frame sleeps ten milliseconds.
  unfoldable pub read_loop : ℕ → ℕ → List ℕ → Stage r (Result (List ℕ))
  read_loop zero deadline received = overran r >> done (timed_out received)
  read_loop (suc rounds) deadline received = do
    time ← now r
    branch (leb deadline time) (done (timed_out received)) (do
      canceled ← cancel_requested r
      branch canceled (done (err "UART receive canceled")) (do
        chunk ← hardware r r.uart_read_available
        on_result chunk (λ message. done (err message))
            (λ bytes.
              on_received (consume (received ++ bytes)) (λ f. done (ok f))
                (λ rest. sleep r 10 >> read_loop rounds deadline rest))))

  unfoldable pub read_uart_frame : ℕ → Stage r (Result (List ℕ))
  read_uart_frame timeout = do time ← now r; read_loop (timeout + 1) (time + timeout) []

  abbrev pub not_ready : String → ℕ → ℕ → Stage r (Unit {0})
  not_ready stage command status = fail r stage (
      concat "CAP UART test command did not become ready: reg01=0x"
        (concat (hex_byte command) (concat " reg03=0x" (hex_byte status))))

  -- The poll in prepare_uart_test_ of the command and status registers, which were read last as
  -- `command` and `status`, with the rounds that are left.
  unfoldable pub ready_loop : String → ℕ → ℕ → ℕ → ℕ → Stage r (Unit {0})
  ready_loop stage zero deadline command status = overran r >> not_ready stage command status
  ready_loop stage (suc rounds) deadline command status = do
    time ← now r
    branch (leb deadline time) (not_ready stage command status) (do
      command' ← read_value r stage 0x01
      status' ← read_value r stage 0x03
      branch (command' == 0x03 && status' == 0x01)
          (do
            discarded ←
                call_or_fail r stage "failed to clear UART RX before HELLO: " r.uart_read_available
            done tt)
          (delay r uart_command_ready_poll_delay_ms
            >> ready_loop stage rounds deadline command' status'))

  -- uart_session_.reset().
  unfoldable pub close_uart : Stage r (Unit {0})
  close_uart m = (
    some tt,
    record m {
      model = record m.model { uart_session = false };
      world = if m.model.uart_session then r.uart_close m.world else m.world;
    },
  )

  unfoldable pub prepare_uart_test : String → Stage r (Unit {0})
  prepare_uart_test stage = do
    close_uart
    call_or_fail r stage "open UART failed: " r.uart_open
    change_model r (λ m. record m { uart_session = true })
    discarded ←
        call_or_fail r stage "failed to clear UART RX before test command: " r.uart_read_available
    write_value r stage 0x01 0x03
    time ← now r
    ready_loop stage (uart_command_ready_timeout_ms + 1) (time + uart_command_ready_timeout_ms) 0xFF
        0xFF

  -- A frame that is received as the stage expects it.
  abbrev pub validated : String → String → List ℕ → ℕ → ℕ → List ℕ → Stage r (Unit {0})
  validated stage message bytes type size payload =
      or_fail r stage message (validate_uart_frame bytes type size payload)

  -- The attempts of run_uart_ to get READY for HELLO, with the number that is left.
  unfoldable pub uart_hello : ℕ → Stage r Bool
  uart_hello zero = done false
  uart_hello (suc attempts) = do
    canceled ← cancel_requested r
    branch canceled (done false) (do
      call_or_fail r "UART" "HELLO write failed: " (r.uart_write hello)
      reply ← read_uart_frame 700
      on_result reply (λ message. uart_hello attempts)
          (λ ready. validated "UART" "invalid READY frame: " ready 0x31 0 ten_zeros >> done true))

  unfoldable pub run_uart : Stage r (Unit {0})
  run_uart = do
    begin_item r uart_item "115200 8N1 handshake"
    prepare_uart_test "UART"
    ready ← uart_hello 3
    expect r "UART" ready "READY not received after three HELLO attempts"
    call_or_fail r "UART" "START write failed: " (r.uart_write start_frame)
    call_or_fail r "UART" "DATA write failed: " (r.uart_write data_frame)
    reply ← read_uart_frame 3500
    answer ← or_fail r "UART" "" reply
    validated "UART" "" answer 0x03 10 rx_payload
    delay r feature_guard_delay_ms
    cap_received ← read_reg r "UART" 0x11 10
    cap_replied ← read_reg r "UART" 0x1B 10
    pass_item r uart_item "Handshake + payload OK"

  -- The attempts of run_grove_uart_: a HELLO that cannot be written is an attempt, too.
  unfoldable pub grove_hello : ℕ → Stage r Bool
  grove_hello zero = done false
  grove_hello (suc attempts) =
      let next = grove_hello attempts in
      (do
        canceled ← cancel_requested r
        branch canceled (done false) (do
          sent ← hardware r (r.uart_write hello)
          on_result sent (λ message. next)
              (λ _. do
                reply ← read_uart_frame 700
                on_result reply (λ message. next)
                    (λ ready. validated "GROVE-UART" "" ready 0x31 0 ten_zeros >> done true))))

  abbrev pub exchange_message : String → String
  exchange_message error = if is_empty error then "Grove UART data exchange failed" else error

  abbrev pub exchanged : {A : Type 0} → Result A → Stage r A
  exchanged result = on_result result (λ error. fail r "GROVE-UART" (exchange_message error)) done

  -- The channel is toggled to Grove, and the CAP reports IDLE.
  unfoldable pub grove_uart_channel : Stage r (Unit {0})
  grove_uart_channel = do
    call_or_fail r "GROVE-UART" "Grove UART host mux pre-switch failed: "
        r.set_external_bus_uart_mode
    change_model r (λ m. record m { host_external_uart_selected = true })
    delay r sysfs_switch_delay_ms
    write_value r "GROVE-UART" 0x01 0x09
    change_model r (λ m. record m { cap_grove_uart_active = true })
    delay r 200
    wait_for_idle r "GROVE-UART" channel_switch_delay_ms
        "CAP UART channel switch did not return IDLE"
    delay r grove_uart_signal_stable_delay_ms

  unfoldable pub run_grove_uart : Stage r (Unit {0})
  run_grove_uart = do
    begin_item r grove_uart_item "Switch and verify Grove UART"
    grove_uart_channel
    prepare_uart_test "GROVE-UART"
    ready ← grove_hello 3
    expect r "GROVE-UART" ready "Grove UART READY not received"
    call_or_fail r "GROVE-UART" "Grove UART START write failed: " (r.uart_write start_frame)
    written ← hardware r (r.uart_write data_frame)
    exchanged written
    reply ← read_uart_frame 3500
    answer ← exchanged reply
    validated "GROVE-UART" "" answer 0x03 10 rx_payload
    write_value r "GROVE-UART" 0x01 0x09
    delay r 200
    delay r channel_switch_delay_ms
    change_model r (λ m. record m { cap_grove_uart_active = false })
    pass_item r grove_uart_item "Handshake + payload OK"
