-- ===== src/IrFixture/Outcomes.antt =====
-- src/model/ir_fixture_test_model.cpp: a property of all that a run can end with.
use factory_test.Common.{
  Bool-cases, Option-cases, inl, inr, ℕ, ◌+◌, String, List, [], ◌∷◌, Option, none, some,
}
use factory_test.IrFixture.Types.{IrRig, k_fixture_address}
use factory_test.IrFixture.Steps.{
  Item, tx_item, rx_item, Model, fail, returned, went_on, send_frames, pause, cancel_shown,
  random_dut_address, Phase,
}
use factory_test.IrFixture.Model.{listen, after_sending, run_with, run}
use factory_test.IrFixture.Calls.{
  loads, reads_clock, asks_sender, asks_receiver, sends, opens, Leads, pause-Leads,
  random_dut_address-Leads, random_commands-Leads,
}

module _ (r : IrRig) where
  -- The result of a run, if there is one.
  unfoldable pub AllIs : (Model r → Type 0) → Option (Model r) → Type 0
  AllIs P none = Unit
  AllIs P (some m) = P m

  -- What every result of a run is: what is failed or canceled, and what listening ends with in a
  -- state of the world that is reached before it.
  module _ (P : Model r → Type 0) (Reached : r.World → Type 0)
      (leads : (w w' : r.World) → Leads r w w' → Reached w → Reached w')
      (fails : (index : Item) (message : String) (m : Model r) → P (fail r index message m))
      (cancels : (m : Model r) → P (cancel_shown r m))
      (listens : (m : Model r) → Reached m.1 → AllIs P (listen r m)) where
    PhaseIs : Phase r → Type 0
    PhaseIs (returned m) = P m
    PhaseIs (went_on m) = Reached m.1

    send_frames-PhaseIs :
        (address i : ℕ) (commands : List ℕ) (m : Model r)
        → Reached m.1
        → PhaseIs (send_frames r address i commands m)
    unfolding send_frames PhaseIs
    send_frames-PhaseIs address i [] m reached = reached
    send_frames-PhaseIs address i (command ∷ commands) (snapshot, w) reached =
        let w1 = (r.is_canceled w).1 in
        elim (Bool-cases (r.is_canceled w).0) [
          | inl e ↦ rw (e, send_frames) (leads w w1 (λ log v c. loads c) reached)
          | inr e ↦ elim (Bool-cases (r.send_nec_packet address command w1).0.0) [
            | inr f ↦ rw (e, f, send_frames) (fails tx_item _ _)
            | inl f ↦
                let w3 = (r.now (r.send_nec_packet address command w1).1).1 in
                let here =
                  leads w (pause r commands w3).1
                    (λ log v c.
                      loads
                        (sends address command (reads_clock (pause-Leads r commands w3 log v c))))
                    reached in
                elim (Bool-cases (pause r commands w3).0) [
                  | inr g ↦ rw (e, f, g, send_frames) here
                  | inl g ↦
                      rw (e, f, g, send_frames)
                        (send_frames-PhaseIs address (i + 1) commands _ here)
                ]
          ]
        ]

    after_sending-AllIs : (phase : Phase r) → PhaseIs phase → AllIs P (after_sending r phase)
    unfolding after_sending PhaseIs AllIs
    after_sending-AllIs (returned m) good = good
    after_sending-AllIs (went_on (snapshot, w)) good = elim (Bool-cases (r.is_canceled w).0) [
      | inl e ↦ rw (e, after_sending) (cancels _)
      | inr e ↦ elim (Bool-cases (r.start_receiver k_fixture_address (r.is_canceled w).1).0) [
        | inr f ↦ rw (e, f, after_sending) (fails rx_item _ _)
        | inl f ↦
            rw (e, f, after_sending)
              (listens _ (leads w _ (λ log v c. loads (opens k_fixture_address c)) good))
      ]
    ]

    run_with-AllIs :
        (address : ℕ) (commands : List ℕ) (m : Model r)
        → Reached m.1
        → AllIs P (run_with r address commands m)
    unfolding run_with AllIs
    run_with-AllIs address commands (snapshot, w) reached =
        elim (Bool-cases (r.read_sender_info w).0.available) [
          | inr e ↦ rw (e, run_with) (fails tx_item _ _)
          | inl e ↦ elim (Bool-cases (r.read_receiver_info (r.read_sender_info w).1).0.available) [
            | inr f ↦ rw (e, f, run_with) (fails rx_item _ _)
            | inl f ↦
                rw (e, f, run_with)
                  (after_sending-AllIs _ (
                    send_frames-PhaseIs address 0 commands _
                      (leads w _ (λ log v c. asks_sender (asks_receiver c)) reached)))
          ]
        ]

    pub run-AllIs : (n : ℕ) (m : Model r) → Reached m.1 → AllIs P (run r n m)
    unfolding run AllIs
    run-AllIs n (snapshot, w) reached = elim (Option-cases (random_dut_address r n w).0) [
      | inl e ↦ rw (e, run) tt
      | inr (address, e) ↦
          rw (e, run)
            (run_with-AllIs address _ _ (
              leads w _
                (λ log v c.
                  random_dut_address-Leads r n w log v (random_commands-Leads r 4 _ log v c))
                reached))
    ]
