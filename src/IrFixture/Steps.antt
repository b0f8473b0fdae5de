-- ===== src/IrFixture/Steps.antt =====
-- src/model/ir_fixture_test_model.cpp, class IrFixtureTestModel: failing, waiting, the random
-- numbers, the frames that are sent, and the judgement of one reply.
use factory_test.Common.{
  Bool, true, false, not, ◌&&◌, ◌==◌, ltb, ℕ, zero, suc, ◌+◌, ◌-◌, ◌*◌, ◌/◌, ◌%◌, ◌^◌, String,
  str_eq, is_empty, concat, List, [], ◌∷◌, Option, none, some, if◌then◌else◌,
}
use factory_test.Nec.Receiving.{IrReceiveSnapshot}
use factory_test.IrFixture.Types.{
  IrFixtureRunState, IrFixtureItemState, IrFixtureItemSnapshot, IrFixtureSnapshot, IrRig,
  k_tx_interval_ms, is_dut_address, expected_fixture_command, tx_progress_text, rx_progress_text,
  digit,
}

abbrev pub hex_word : ℕ → String
hex_word value = concat "0x" (
    concat (digit (value / 4096))
      (concat (digit (value / 256)) (concat (digit (value / 16)) (digit value))))

-- An item that is running fails.
abbrev pub fail_running : IrFixtureItemSnapshot → IrFixtureItemSnapshot
fail_running item = elim item.state [
  | IrFixtureItemState.running ↦ record item {
    state = IrFixtureItemState.failed;
    detail = "Fixture acknowledgement not verified";
  }
  | _ ↦ item
]

pub data Item : Type 0 where
  tx_item rx_item : Item

abbrev pub fail_item : Bool → String → IrFixtureItemSnapshot → IrFixtureItemSnapshot
fail_item true message item = record item { state = IrFixtureItemState.failed; detail = message }
fail_item false message item = item

abbrev pub is_tx : Item → Bool
is_tx tx_item = true
is_tx rx_item = false

-- An unsigned int.
abbrev pub next_revision : IrFixtureSnapshot → ℕ
next_revision snapshot = (snapshot.revision + 1) % 2 ^ 32

module _ (r : IrRig) where
  -- The snapshot and all else.
  abbrev pub Model : Type 0
  Model = IrFixtureSnapshot × r.World

  unfoldable pub fail : Item → String → Model → Model
  fail index message (snapshot, w) = (
    record snapshot {
      tx = fail_item (is_tx index) message (fail_running snapshot.tx);
      rx = fail_item (not (is_tx index)) message (fail_running snapshot.rx);
      state = IrFixtureRunState.failed;
      headline = "IR fixture test failed";
      error_message = message;
      revision = next_revision snapshot;
    },
    w,
  )

  abbrev pub message_or : String → String → String
  message_or message text = if is_empty message then text else message

  unfoldable pub delay_rounds : ℕ → ℕ → r.World → Bool × r.World
  delay_rounds (suc rounds) (suc left) w =
      let (canceled, w1) = r.is_canceled w in
      let slice = if ltb 10 (suc left) then 10 else suc left in
      let rest = delay_rounds rounds (suc left - slice) (r.sleep slice w1) in
      let (requested, w2) = r.is_canceled w1 in if canceled then (not requested, w2) else rest
  delay_rounds rounds left w = let (requested, w1) = r.is_canceled w in (not requested, w1)

  -- A round for each millisecond is enough.
  abbrev pub delay : ℕ → r.World → Bool × r.World
  delay milliseconds w = delay_rounds milliseconds milliseconds w

  -- The loop is left after so many draws that no address is taken.
  unfoldable pub random_dut_address : ℕ → r.World → Option ℕ × r.World
  random_dut_address zero w = (none, w)
  random_dut_address (suc draws) w =
      let (address, w') = r.draw 1 0xFFFE w in
      let rest = random_dut_address draws w' in
      if is_dut_address address then (some address, w') else rest

  unfoldable pub random_commands : ℕ → r.World → List ℕ × r.World
  random_commands zero w = ([], w)
  random_commands (suc n) w =
      let (command, w') = r.draw 1 0xFE w in
      let (commands, w'') = random_commands n w' in (command * 256 ∷ commands, w'')

  -- A part of run_ that returns from run_, or after which run_ goes on.
  pub data Phase : Type 0 where
    returned went_on : Model → Phase

  abbrev pub sending : ℕ → IrFixtureSnapshot → IrFixtureSnapshot
  sending i snapshot = record snapshot {
    headline = "Sending random NEC32 frames";
    tx = record snapshot.tx { detail = tx_progress_text i };
    revision = next_revision snapshot;
  }

  -- delay_ between two packets.
  unfoldable pub pause : List ℕ → r.World → Bool × r.World
  pause [] w = (true, w)
  pause (command ∷ commands) w = delay k_tx_interval_ms w

  -- The loop over the commands from the one with number i.
  unfoldable pub send_frames : ℕ → ℕ → List ℕ → Model → Phase
  send_frames address i [] m = went_on m
  send_frames address i (command ∷ commands) (snapshot, w) =
      let (canceled, w1) = r.is_canceled w in
      let shown = sending i snapshot in
      let ((success, message), w2) = r.send_nec_packet address command w1 in
      let (_, w3) = r.now w2 in
      let (waited, w4) = pause commands w3 in
      let rest = send_frames address (i + 1) commands (shown, w4) in
      if canceled
      then went_on (snapshot, w1)
      else if not success
      then returned (fail tx_item (message_or message "IR frame send failed") (shown, w2))
      else if waited
      then rest
      else went_on (shown, w4)

  unfoldable pub cancel_shown : Model → Model
  cancel_shown (snapshot, w) = (
    record snapshot {
      state = IrFixtureRunState.canceled;
      headline = "IR fixture test canceled";
      revision = next_revision snapshot;
    },
    w,
  )

  -- One reply: it is passed over, counted, or ends the run.
  pub data Judged : Type 0 where
    refused : Model → Judged
    counted : ℕ → Model → Judged

  abbrev pub replied : ℕ → IrFixtureSnapshot → IrFixtureSnapshot
  replied count snapshot = record snapshot {
    rx = record snapshot.rx { detail = rx_progress_text count };
    revision = next_revision snapshot;
  }

  abbrev pub reply_text : ℕ → String → String → String
  reply_text count expected got = concat "Reply " (
      concat (r.to_string (count + 1))
        (concat " expected " (concat expected (concat ", got " got))))

  unfoldable pub judge : IrReceiveSnapshot → ℕ → Model → Judged
  judge received count (snapshot, w) =
      let expected = expected_fixture_command count in
      if not (received.data_changed && received.address_matched)
      then counted count (snapshot, w)
      else if not (str_eq received.protocol "NEC32")
      then refused (
          fail rx_item (reply_text count "NEC32" (message_or received.protocol "unknown protocol"))
            (snapshot, w))
      else if not (received.command == expected)
      then refused (
          fail rx_item (reply_text count (hex_word expected) (hex_word received.command))
            (snapshot, w))
      else counted (count + 1) (replied (count + 1) snapshot, w)
