-- ===== src/IrFixture/Ends.antt =====
-- src/model/ir_fixture_test_model.cpp: every run comes to an end, and what it shows then.
use factory_test.Common.{true, ltb, ◌⊎◌, ℕ, ◌+◌, ◌≤◌, Option, some, if◌then◌else◌, ◌≡◌}
use factory_test.IrFixture.Types.{IrRig, k_rx_packet_count}
use factory_test.IrFixture.Steps.{Model}

-- The clock does not go back, a sleep takes as long as is asked for, and during a run a cancellation
-- is not taken back.
pub record ClockLaws (r : IrRig) : Type 0 where
  pub time : r.World → ℕ
  pub at_now : (w : r.World) → (r.now w).0 ≡ time w
  pub after_now : (w : r.World) → time w ≤ time (r.now w).1
  pub after_sleep : (n : ℕ) (w : r.World) → time w + n ≤ time (r.sleep n w)
  pub after_canceled : (w : r.World) → time w ≤ time (r.is_canceled w).1
  pub stays_canceled :
      (w : r.World) → (r.is_canceled w).0 ≡ true → (r.is_canceled (r.is_canceled w).1).0 ≡ true
  pub after_poll : (w : r.World) → time w ≤ time (r.poll w).1

abbrev slice_of : ℕ → ℕ
slice_of left = if ltb 10 left then 10 else left

module _ (r : IrRig) (clock : ClockLaws r) where
  open clock use {time}

  Enough : ℕ → ℕ → ℕ → r.World → Type 0
  Enough rounds deadline count w =
      (1 ≤ rounds) × ((deadline + 2 ≤ rounds + time w) ⊎ (k_rx_packet_count ≤ count))

  IsSome : {A : Type 0} → Option A → Type 0
  IsSome {A} o = (a : A) × (o ≡ some a)
