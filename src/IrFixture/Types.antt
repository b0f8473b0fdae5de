-- ===== src/IrFixture/Types.antt =====
-- src/model/ir_fixture_test_model.h, the constants and texts of src/model/ir_fixture_test_model.cpp, and what
-- these use and do not implement.
use Prim.Native.Nat.{bit_xor}
use factory_test.Common.{
  Bool, not, ◌&&◌, ◌==◌, ℕ, ◌+◌, ◌/◌, ◌%◌, String, [], ◌∷◌, get_elem?, Option, none, some,
}
use factory_test.Nec.Receiving.{IrReceiveSnapshot}

pub data IrFixtureRunState : Type 0 where
  waiting_for_fixture running passed failed canceled : IrFixtureRunState

pub data IrFixtureItemState : Type 0 where
  pending running passed failed : IrFixtureItemState

pub record IrFixtureItemSnapshot : Type 0 where
  pub name : String
  pub state : IrFixtureItemState
  pub detail : String

-- The two items have fields of their own in place of an array.
pub record IrFixtureSnapshot : Type 0 where
  pub state : IrFixtureRunState
  pub tx : IrFixtureItemSnapshot
  pub rx : IrFixtureItemSnapshot
  pub headline : String
  pub error_message : String
  pub revision : ℕ

-- IrSenderInfo and IrReceiverInfo, as far as the test reads them.
pub record Device : Type 0 where
  pub available : Bool
  pub error_message : String

-- The infrared service, the random numbers, the clock in milliseconds and the cancellation flag, which
-- another thread can set at any time.
pub record IrRig : Type 1 where
  pub World : Type 0
  pub is_canceled : World → Bool × World
  pub now : World → ℕ × World
  pub sleep : ℕ → World → World
  pub draw : ℕ → ℕ → World → ℕ × World
  pub read_sender_info : World → Device × World
  pub read_receiver_info : World → Device × World
  pub send_nec_packet : ℕ → ℕ → World → (Bool × String) × World
  pub start_receiver : ℕ → World → Bool × World
  pub receiver_message : World → String
  pub poll : World → IrReceiveSnapshot × World
  pub to_string : ℕ → String

abbrev pub k_tx_packet_count : ℕ
k_tx_packet_count = 4

abbrev pub k_rx_packet_count : ℕ
k_rx_packet_count = 5

abbrev pub k_fixture_address : ℕ
k_fixture_address = 0xED2F

abbrev pub k_tx_interval_ms : ℕ
k_tx_interval_ms = 250

abbrev pub k_rx_timeout_ms : ℕ
k_rx_timeout_ms = 3500

abbrev pub k_poll_interval_ms : ℕ
k_poll_interval_ms = 20

-- The test of random_dut_address's loop.
abbrev pub is_dut_address : ℕ → Bool
is_dut_address address =
    not (address == k_fixture_address)
    && not (bit_xor (address % 256) (address / 256 % 256) == 0xFF)

abbrev pub expected_fixture_command : ℕ → ℕ
expected_fixture_command index = (0xF1 + index) % 65536

abbrev pub or_text : Option String → String → String
or_text none text = text
or_text (some s) text = s

abbrev pub tx_progress_text : ℕ → String
tx_progress_text index =
    or_text
      (get_elem?
        ("Sending random frame 1/4" ∷ "Sending random frame 2/4" ∷ "Sending random frame 3/4"
          ∷ "Sending random frame 4/4" ∷ [])
        index)
      "Sending random NEC32 frames"

abbrev pub rx_progress_text : ℕ → String
rx_progress_text count =
    or_text
      (get_elem?
        ("Waiting for fixture reply" ∷ "Verified fixture reply 1/5" ∷ "Verified fixture reply 2/5"
          ∷ "Verified fixture reply 3/5" ∷ "Verified fixture reply 4/5" ∷ [])
        count)
      "Verified fixture reply 5/5"

abbrev pub ir_fixture_item_state_text : IrFixtureItemState → String
ir_fixture_item_state_text pending = "WAIT"
ir_fixture_item_state_text running = "RUN"
ir_fixture_item_state_text passed = "PASS"
ir_fixture_item_state_text failed = "FAIL"

-- The uppercase digits of a 16-bit number.
abbrev pub digit : ℕ → String
digit n =
    or_text
      (get_elem?
        ("0" ∷ "1" ∷ "2" ∷ "3" ∷ "4" ∷ "5" ∷ "6" ∷ "7" ∷ "8" ∷ "9" ∷ "A" ∷ "B" ∷ "C" ∷ "D" ∷ "E"
          ∷ "F" ∷ [])
        (n % 16))
      ""
