-- ===== src/IrFixture/Model.antt =====
-- src/model/ir_fixture_test_model.cpp, class IrFixtureTestModel: run_ and start, which goes on to the end of
-- the worker.
use factory_test.Common.{
  Bool, true, not, ◌&&◌, ◌==◌, ltb, ℕ, zero, suc, ◌+◌, concat, List, Option, none, some,
  if◌then◌else◌,
}
use factory_test.IrFixture.Types.{
  IrFixtureRunState, IrFixtureItemState, IrFixtureSnapshot, IrRig, k_rx_packet_count,
  k_fixture_address, k_rx_timeout_ms, k_poll_interval_ms, rx_progress_text,
}
use factory_test.IrFixture.Steps.{
  next_revision, Model, fail, message_or, delay, random_dut_address, random_commands, Phase,
  send_frames, cancel_shown, judge, tx_item, rx_item, returned, went_on, refused, counted,
}

module _ (r : IrRig) where
  -- How the loop over the replies ends: with a return from run_, or with the replies that it counted.
  pub data Received : Type 0 where
    ended : Model r → Received
    heard : ℕ → Model r → Received

  unfoldable pub poll_pause : ℕ → r.World → Bool × r.World
  poll_pause count w =
      let waited = delay r k_poll_interval_ms w in
      if ltb count k_rx_packet_count then waited else (true, w)

  -- `none` when the rounds do not suffice.
  unfoldable pub receive : ℕ → ℕ → ℕ → Model r → Option Received
  receive zero deadline count m = none
  receive (suc rounds) deadline count (snapshot, w) =
      let (canceled, w1) = r.is_canceled w in
      let (time, w2) = r.now w1 in
      let (received, w3) = r.poll w2 in
      if canceled
      then some (heard count (snapshot, w1))
      else if not (ltb time deadline && ltb count k_rx_packet_count)
      then some (heard count (snapshot, w2))
      else elim (judge r received count (snapshot, w3)) [
        | refused m' ↦ some (ended m')
        | counted n m' ↦
            let (waited, w4) = poll_pause n m'.1 in
            let rest = receive rounds deadline n (m'.0, w4) in
            if waited then rest else some (heard n (m'.0, w4))
      ]

  abbrev pub passed_shown : IrFixtureSnapshot → IrFixtureSnapshot
  passed_shown snapshot = record snapshot {
    tx = record snapshot.tx {
      state = IrFixtureItemState.passed;
      detail = "Fixture acknowledged all 4 frames";
    };
    rx = record snapshot.rx {
      state = IrFixtureItemState.passed;
      detail = "0xED2F: F1 F2 F3 F4 F5 verified";
    };
    state = IrFixtureRunState.passed;
    headline = "IR fixture test passed";
    revision = next_revision snapshot;
  }

  -- The end of run_, from the last look at the flag.
  unfoldable pub conclude : ℕ → Model r → Model r
  conclude count (snapshot, w) =
      let (canceled, w1) = r.is_canceled w in
      if canceled
      then cancel_shown r (snapshot, w1)
      else if not (count == k_rx_packet_count)
      then fail r rx_item
          (concat "Fixture reply timed out: " (concat (r.to_string count) "/5 received"))
          (snapshot, w1)
      else (passed_shown snapshot, w1)

  unfoldable pub concluded : Received → Model r
  concluded (ended m) = m
  concluded (heard count m) = conclude count m

  abbrev pub validating : IrFixtureSnapshot → IrFixtureSnapshot
  validating snapshot = record snapshot {
    headline = "Validating fixture response";
    tx = record snapshot.tx { detail = "4 frames sent; waiting for verified reply" };
    rx = record snapshot.rx { state = IrFixtureItemState.running; detail = rx_progress_text 0 };
    revision = next_revision snapshot;
  }

  -- A round for each millisecond of the time-out and two more.
  unfoldable pub listen : Model r → Option (Model r)
  listen (snapshot, w) =
      let (_, w1) = r.now w in
      let (start, w2) = r.now w1 in
      let replies =
        receive (k_rx_timeout_ms + 2) (start + k_rx_timeout_ms) 0 (validating snapshot, w2) in
      elim replies [ none ↦ none | some received ↦ some (concluded received) ]

  unfoldable pub after_sending : Phase r → Option (Model r)
  after_sending (returned m) = some m
  after_sending (went_on (snapshot, w)) =
      let (canceled, w1) = r.is_canceled w in
      let (started, w2) = r.start_receiver k_fixture_address w1 in
      if canceled
      then some (cancel_shown r (snapshot, w1))
      else if not started
      then some (
          fail r rx_item (message_or r (r.receiver_message w2) "IR receiver unavailable")
            (snapshot, w2))
      else listen (snapshot, w2)

  -- run_ behind the choice of the address and the commands.
  unfoldable pub run_with : ℕ → List ℕ → Model r → Option (Model r)
  run_with address commands (snapshot, w) =
      let (sender, w1) = r.read_sender_info w in
      let (receiver, w2) = r.read_receiver_info w1 in
      if not sender.available
      then some (
          fail r tx_item (message_or r sender.error_message "IR transmitter unavailable")
            (snapshot, w1))
      else if not receiver.available
      then some (
          fail r rx_item (message_or r receiver.error_message "IR receiver unavailable")
            (snapshot, w2))
      else after_sending (send_frames r address 0 commands (snapshot, w2))

  -- `none` when no address is found within so many draws.
  unfoldable pub run : ℕ → Model r → Option (Model r)
  run draws (snapshot, w) =
      let (drawn, w1) = random_dut_address r draws w in
      elim drawn [
        | none ↦ none
        | some address ↦
            let (commands, w2) = random_commands r 4 w1 in run_with address commands (snapshot, w2)
      ]

  abbrev pub started : IrFixtureSnapshot → IrFixtureSnapshot
  started snapshot = record {
    state = IrFixtureRunState.running;
    headline = "Checking IR transmitter and receiver";
    error_message = "";
    tx = record {
      name = "IR TX";
      state = IrFixtureItemState.running;
      detail = "Preparing random frames";
    };
    rx = record {
      name = "IR RX";
      state = IrFixtureItemState.pending;
      detail = "Waiting for fixture";
    };
    revision = next_revision snapshot;
  }

  abbrev pub start : ℕ → Model r → Option (Model r)
  start draws (snapshot, w) = run draws (started snapshot, w)
