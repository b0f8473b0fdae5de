-- ===== src/Examples/IrRuns.antt =====
-- The infrared test with a fixture that replies as it should, after a poll without data.
use factory_test.Common.{Bool, true, false, ℕ, ◌+◌, List, [], ◌∷◌, Option, none, some, ◌≡◌, refl}
use factory_test.Nec.Receiving.{IrReceiveSnapshot}
use factory_test.IrFixture.Types.{IrFixtureRunState, IrFixtureItemState, IrFixtureSnapshot, IrRig}
use factory_test.IrFixture.Steps.{
  Model, delay_rounds, random_dut_address, random_commands, pause, send_frames, judge,
}
use factory_test.IrFixture.Model.{
  poll_pause, receive, conclude, concluded, listen, after_sending, run_with, run, start,
}
use factory_test.IrFixture.Replies.{Acknowledged, start-Acknowledged}
use factory_test.IrFixture.Shown.{IsShown, start-IsShown}

abbrev received : Bool → ℕ → IrReceiveSnapshot
received fresh command = record {
  opened = true;
  signal_seen = fresh;
  data_changed = fresh;
  address_matched = fresh;
  address_filter_enabled = true;
  expected_address = 0xED2F;
  address = 0xED2F;
  command = command;
  bytes = [];
  protocol = "NEC32";
  device_path = "/dev/lirc1";
  raw_summary = "";
  message = "";
}

abbrev heard_now : List ℕ → IrReceiveSnapshot
heard_now [] = received false 0
heard_now (command ∷ commands) = received true command

abbrev others : List ℕ → List ℕ
others [] = []
others (command ∷ commands) = commands

-- The world: the clock in milliseconds, and the commands that the fixture will reply with.
abbrev rig : IrRig
rig = record {
  World = ℕ × List ℕ;
  is_canceled = λ w. (false, w);
  now = λ w. (w.0, w);
  sleep = λ n (time, commands). (time + n, commands);
  draw = λ low high w. (low, w);
  read_sender_info = λ w. (record { available = true; error_message = "" }, w);
  read_receiver_info = λ w. (record { available = true; error_message = "" }, w);
  send_nec_packet = λ address command w. ((true, ""), w);
  start_receiver = λ address w. (true, w);
  receiver_message = λ w. "";
  poll = λ (time, commands). (heard_now commands, (time, others commands));
  to_string = λ n. "1";
}

abbrev fresh_snapshot : IrFixtureSnapshot
fresh_snapshot = record {
  state = IrFixtureRunState.waiting_for_fixture;
  tx = record { name = "IR TX"; state = IrFixtureItemState.pending; detail = "Waiting" };
  rx = record { name = "IR RX"; state = IrFixtureItemState.pending; detail = "Waiting" };
  headline = "Prepare IR fixture, then press Enter";
  error_message = "";
  revision = 0;
}

abbrev before : Model rig
before = (fresh_snapshot, (0, 0xF1 ∷ 0xF2 ∷ 0xF3 ∷ 0xF4 ∷ 0xF5 ∷ []))

abbrev result_of : Option (Model rig) → Model rig
result_of none = before
result_of (some m) = m

abbrev after : Model rig
after = result_of (start rig 1 before)

ran : start rig 1 before ≡ some after
unfolding run random_dut_address random_commands run_with send_frames pause delay_rounds
    after_sending listen receive judge poll_pause conclude concluded
ran = refl

shown : after.0.state ≡ IrFixtureRunState.passed
unfolding run random_dut_address random_commands run_with send_frames pause delay_rounds
    after_sending listen receive judge poll_pause conclude concluded
shown = refl

start-Acknowledged_example : Acknowledged rig before after
start-Acknowledged_example = start-Acknowledged rig 1 before after ran shown

start-IsShown_example : IsShown after.0
start-IsShown_example = start-IsShown rig 1 before after ran
