-- ===== src/IrFixture/Calls.antt =====
-- src/model/ir_fixture_test_model.cpp: the calls that a part of the run makes.
use factory_test.Common.{ltb, Bool-cases, inl, inr, ℕ, zero, suc, List, [], ◌∷◌}
use factory_test.Nec.Receiving.{IrReceiveSnapshot}
use factory_test.IrFixture.Types.{
  IrRig, k_rx_packet_count, k_poll_interval_ms, k_tx_interval_ms, is_dut_address,
}
use factory_test.IrFixture.Steps.{delay_rounds, pause, random_dut_address, random_commands}
use factory_test.IrFixture.Model.{poll_pause}

-- The calls from one state of the world to another, with what the polls among them gave.
pub data Calls (r : IrRig) : List IrReceiveSnapshot → r.World → r.World → Type 0 where
  no_calls : {w : r.World} → Calls r [] w w
  polls :
      {log : List IrReceiveSnapshot} {w v : r.World}
      → Calls r log (r.poll w).1 v
      → Calls r ((r.poll w).0 ∷ log) w v
  loads :
      {log : List IrReceiveSnapshot} {w v : r.World}
      → Calls r log (r.is_canceled w).1 v
      → Calls r log w v
  reads_clock :
      {log : List IrReceiveSnapshot} {w v : r.World} → Calls r log (r.now w).1 v → Calls r log w v
  sleeps :
      {log : List IrReceiveSnapshot} {w v : r.World} (n : ℕ)
      → Calls r log (r.sleep n w) v
      → Calls r log w v
  draws :
      {log : List IrReceiveSnapshot} {w v : r.World} (low high : ℕ)
      → Calls r log (r.draw low high w).1 v
      → Calls r log w v
  asks_sender :
      {log : List IrReceiveSnapshot} {w v : r.World}
      → Calls r log (r.read_sender_info w).1 v
      → Calls r log w v
  asks_receiver :
      {log : List IrReceiveSnapshot} {w v : r.World}
      → Calls r log (r.read_receiver_info w).1 v
      → Calls r log w v
  sends :
      {log : List IrReceiveSnapshot} {w v : r.World} (address command : ℕ)
      → Calls r log (r.send_nec_packet address command w).1 v
      → Calls r log w v
  opens :
      {log : List IrReceiveSnapshot} {w v : r.World} (address : ℕ)
      → Calls r log (r.start_receiver address w).1 v
      → Calls r log w v

module _ (r : IrRig) where
  -- One more look at the flag behind other calls.
  pub then_loads :
      {log : List IrReceiveSnapshot} {w v : r.World}
      → Calls r log w v
      → Calls r log w (r.is_canceled v).1
  then_loads no_calls = loads no_calls
  then_loads (polls c) = polls (then_loads c)
  then_loads (loads c) = loads (then_loads c)
  then_loads (reads_clock c) = reads_clock (then_loads c)
  then_loads (sleeps n c) = sleeps n (then_loads c)
  then_loads (draws low high c) = draws low high (then_loads c)
  then_loads (asks_sender c) = asks_sender (then_loads c)
  then_loads (asks_receiver c) = asks_receiver (then_loads c)
  then_loads (sends address command c) = sends address command (then_loads c)
  then_loads (opens address c) = opens address (then_loads c)

  -- The second state of the world is reached from the first by calls none of which is a poll.
  abbrev pub Leads : r.World → r.World → Type 0
  Leads w w' = (log : List IrReceiveSnapshot) (v : r.World) → Calls r log w' v → Calls r log w v

  pub delay_rounds-Calls :
      (rounds left : ℕ) (w v : r.World) {log : List IrReceiveSnapshot}
      → Calls r log (delay_rounds r rounds left w).1 v
      → Calls r log w v
  unfolding delay_rounds
  delay_rounds-Calls zero left w v calls = loads calls
  delay_rounds-Calls (suc rounds) zero w v calls = loads calls
  delay_rounds-Calls (suc rounds) (suc left) w v calls = elim (Bool-cases (r.is_canceled w).0) [
    | inl e ↦ loads (loads (rw (e, delay_rounds) at calls))
    | inr e ↦ loads (sleeps _ (delay_rounds-Calls rounds _ _ v (rw (e, delay_rounds) at calls)))
  ]

  pub pause-Leads : (commands : List ℕ) (w : r.World) → Leads w (pause r commands w).1
  unfolding pause
  pause-Leads [] w log v calls = calls
  pause-Leads (command ∷ commands) w log v calls =
      delay_rounds-Calls k_tx_interval_ms k_tx_interval_ms w v calls

  pub random_dut_address-Leads : (n : ℕ) (w : r.World) → Leads w (random_dut_address r n w).1
  unfolding random_dut_address
  random_dut_address-Leads zero w log v calls = calls
  random_dut_address-Leads (suc n) w log v calls =
      elim (Bool-cases (is_dut_address (r.draw 1 0xFFFE w).0)) [
        | inl e ↦ draws 1 0xFFFE (rw (e, random_dut_address) at calls)
        | inr e ↦
            draws 1 0xFFFE
              (random_dut_address-Leads n _ log v (rw (e, random_dut_address) at calls))
      ]

  pub random_commands-Leads : (n : ℕ) (w : r.World) → Leads w (random_commands r n w).1
  unfolding random_commands
  random_commands-Leads zero w log v calls = calls
  random_commands-Leads (suc n) w log v calls = draws 1 0xFE (random_commands-Leads n _ log v calls)

  pub poll_pause-Calls :
      (count : ℕ) (w v : r.World) {log : List IrReceiveSnapshot}
      → Calls r log (poll_pause r count w).1 v
      → Calls r log w v
  unfolding poll_pause
  poll_pause-Calls count w v calls = elim (Bool-cases (ltb count k_rx_packet_count)) [
    | inl e ↦
        delay_rounds-Calls k_poll_interval_ms k_poll_interval_ms w v (rw (e, poll_pause) at calls)
    | inr e ↦ rw (e, poll_pause) at calls
  ]
