-- ===== src/IrFixture/Replies.antt =====
-- src/model/ir_fixture_test_model.cpp: what the fixture has replied when the test passes.
use factory_test.Common.{
  ◌==◌, ==_iff, Bool-cases, Option-cases, inl, inr, ℕ, ◌+◌, String, List, [], ◌∷◌, map, All, some,
  ◌≡◌, ap, subst, ◌∙◌, arith,
}
use factory_test.Nec.Receiving.{IrReceiveSnapshot}
use factory_test.IrFixture.Types.{IrFixtureRunState, IrRig, k_rx_packet_count, k_rx_timeout_ms}
use factory_test.IrFixture.Steps.{Item, rx_item, Model, fail, cancel_shown}
use factory_test.IrFixture.Model.{
  receive, Received, ended, heard, conclude, concluded, listen, start, validating, started,
}
use factory_test.IrFixture.Judging.{replies, IsNec32, expected_from}
use factory_test.IrFixture.Calls.{Calls, reads_clock, then_loads, Leads}
use factory_test.IrFixture.Heard.{Heard, IsFailed, receive-Heard, receive-IsFailed}
use factory_test.IrFixture.Outcomes.{AllIs, run-AllIs}

module _ (r : IrRig) where
  -- The calls from the first state of the world to the last, among them the polls: what they gave
  -- holds the replies F1 to F5 and no other, all with NEC32.
  unfoldable pub Acknowledged : Model r → Model r → Type 0
  Acknowledged m m' =
      (log : List IrReceiveSnapshot) × Calls r log m.1 m'.1
      × (map (λ s. s.command) (replies log) ≡ 0xF1 ∷ 0xF2 ∷ 0xF3 ∷ 0xF4 ∷ 0xF5 ∷ [])
      × All IsNec32 (replies log)

  -- What is shown as passed has been acknowledged.
  abbrev IsProven : Model r → Model r → Type 0
  IsProven m m' = m'.0.state ≡ IrFixtureRunState.passed → Acknowledged m m'

  fail-IsProven :
      (first : Model r) (index : Item) (message : String) (m : Model r)
      → IsProven first (fail r index message m)
  unfolding fail
  fail-IsProven first index message m h =
      absurd (let bad : IrFixtureRunState.failed ≡ IrFixtureRunState.passed = h in cc)

  five :
      (first : Model r) (count : ℕ) (w : r.World) (m : Model r)
      → Leads r first.1 w
      → Heard r 0 w count m.1
      → IsProven first (conclude r count m)
  unfolding conclude Heard Acknowledged cancel_shown
  five first count w (snapshot, v) leads (log, calls, (k, sum, commands, protocols)) =
      elim (Bool-cases (r.is_canceled v).0) [
        | inl e ↦
            rw (e, conclude)
              (λ h.
                absurd (let bad : IrFixtureRunState.canceled ≡ IrFixtureRunState.passed = h in cc))
        | inr e ↦ elim (Bool-cases (count == k_rx_packet_count)) [
          | inr f ↦ rw (e, f, conclude) (fail-IsProven first rx_item _ _)
          | inl f ↦
              let all : k ≡ 5 = omega (arith, (==_iff count k_rx_packet_count).0 f, sum) in
              rw (e, f, conclude)
                (λ h. (
                  log,
                  leads log _ (then_loads r calls),
                  commands ∙ ap (λ n. expected_from 0 n) all,
                  protocols,
                ))
        ]
      ]

  received-IsProven :
      (first : Model r) (rounds deadline : ℕ) (m : Model r) (received : Received r)
      → Leads r first.1 m.1
      → receive r rounds deadline 0 m ≡ some received
      → IsProven first (concluded r received)
  unfolding concluded IsFailed
  received-IsProven first rounds deadline m (ended m') leads h =
      let (message, failing, e) = receive-IsFailed r rounds deadline 0 m m' h in
      subst (λ x. IsProven first x) e (fail-IsProven first rx_item message failing)
  received-IsProven first rounds deadline m (heard count m') leads h =
      five first count m.1 m' leads (receive-Heard r rounds deadline 0 m count m' h)

  cancel_shown-IsProven : (first m : Model r) → IsProven first (cancel_shown r m)
  unfolding cancel_shown
  cancel_shown-IsProven first m h =
      absurd (let bad : IrFixtureRunState.canceled ≡ IrFixtureRunState.passed = h in cc)

  listen-IsProven :
      (first m : Model r) → Leads r first.1 m.1 → AllIs r (IsProven first) (listen r m)
  unfolding listen AllIs
  listen-IsProven first (snapshot, w) leads =
      elim (Option-cases (
        receive r (k_rx_timeout_ms + 2) ((r.now (r.now w).1).0 + k_rx_timeout_ms) 0
          (validating r snapshot, (r.now (r.now w).1).1))) [
            | inl e ↦ rw (e, listen) tt
            | inr (received, e) ↦
                rw (e, listen)
                  (received-IsProven first _ _ _ received
                    (λ log v c. leads log v (reads_clock (reads_clock c))) e)
          ]

  -- When a run ends with PASSED, what all its polls from its beginning to its end have given holds the
  -- replies F1 to F5 and no other, in this order and all with protocol NEC32.
  pub start-Acknowledged :
      (draws : ℕ) (m m' : Model r)
      → start r draws m ≡ some m'
      → m'.0.state ≡ IrFixtureRunState.passed
      → Acknowledged m m'
  unfolding AllIs
  start-Acknowledged draws (snapshot, w) m' e h =
      let first : Model r = (snapshot, w) in
      subst (λ o. AllIs r (IsProven first) o) e
        (run-AllIs r (IsProven first) (Leads r w)
          (λ u u' more reached log v c. reached log v (more log v c)) (fail-IsProven first)
          (cancel_shown-IsProven first) (listen-IsProven first) draws (started r snapshot, w)
          (λ log v c. c))
        h
