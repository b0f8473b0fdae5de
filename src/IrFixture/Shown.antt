-- ===== src/IrFixture/Shown.antt =====
-- src/model/ir_fixture_test_model.cpp: what the snapshot shows at the end of a run.
use factory_test.Common.{
  Bool, true, false, not, ◌==◌, Bool-cases, Option-cases, ◌+◌, ◌⊎◌, inl, inr, ℕ, String, some, ◌≡◌,
  ◌≢◌, refl, subst,
}
use factory_test.IrFixture.Types.{
  IrFixtureRunState, IrFixtureItemState, IrFixtureItemSnapshot, IrFixtureSnapshot, IrRig,
  k_rx_packet_count, k_rx_timeout_ms,
}
use factory_test.IrFixture.Steps.{
  Item, tx_item, rx_item, is_tx, Model, fail, fail_item, fail_running, cancel_shown,
}
use factory_test.IrFixture.Model.{
  ended, heard, conclude, concluded, receive, listen, validating, start, started,
}
use factory_test.IrFixture.Heard.{IsFailed, receive-IsFailed}
use factory_test.IrFixture.Outcomes.{AllIs, run-AllIs}

abbrev IsFailedItem : IrFixtureItemSnapshot → Type 0
IsFailedItem item = item.state ≡ IrFixtureItemState.failed

abbrev NotRunning : IrFixtureItemSnapshot → Type 0
NotRunning item = item.state ≢ IrFixtureItemState.running

-- PASSED with both items passed; FAILED with an item that is failed, and none still running; or
-- CANCELED.
pub data IsShown : IrFixtureSnapshot → Type 0 where
  passes :
      {s : IrFixtureSnapshot}
      → s.state ≡ IrFixtureRunState.passed
      → s.tx.state ≡ IrFixtureItemState.passed
      → s.rx.state ≡ IrFixtureItemState.passed
      → IsShown s
  fails :
      {s : IrFixtureSnapshot}
      → s.state ≡ IrFixtureRunState.failed
      → NotRunning s.tx
      → NotRunning s.rx
      → IsFailedItem s.tx ⊎ IsFailedItem s.rx
      → IsShown s
  cancels : {s : IrFixtureSnapshot} → s.state ≡ IrFixtureRunState.canceled → IsShown s

fail_running-NotRunning :
    (name detail : String) (state : IrFixtureItemState)
    → NotRunning (fail_running (record { name = name; state = state; detail = detail }))
fail_running-NotRunning name detail IrFixtureItemState.pending = λ e. cc
fail_running-NotRunning name detail IrFixtureItemState.running = λ e. cc
fail_running-NotRunning name detail IrFixtureItemState.passed = λ e. cc
fail_running-NotRunning name detail IrFixtureItemState.failed = λ e. cc

fail_item-NotRunning :
    (b : Bool) (message : String) (item : IrFixtureItemSnapshot)
    → NotRunning item
    → NotRunning (fail_item b message item)
fail_item-NotRunning true message item other = λ e. cc
fail_item-NotRunning false message item other = other

failed_item :
    (index : Item) (message : String) (tx rx : IrFixtureItemSnapshot)
    → IsFailedItem (fail_item (is_tx index) message tx)
      ⊎ IsFailedItem (fail_item (not (is_tx index)) message rx)
failed_item tx_item message tx rx = inl refl
failed_item rx_item message tx rx = inr refl

module _ (r : IrRig) where
  ShownModel : Model r → Type 0
  ShownModel m = IsShown m.0

  fail-ShownModel :
      (index : Item) (message : String) (m : Model r) → ShownModel (fail r index message m)
  unfolding fail ShownModel
  fail-ShownModel index message (snapshot, w) =
      let tx = snapshot.tx in
      let rx = snapshot.rx in
      fails refl
        (fail_item-NotRunning (is_tx index) message (fail_running tx)
          (fail_running-NotRunning tx.name tx.detail tx.state))
        (fail_item-NotRunning (not (is_tx index)) message (fail_running rx)
          (fail_running-NotRunning rx.name rx.detail rx.state))
        (failed_item index message (fail_running tx) (fail_running rx))

  cancel_shown-ShownModel : (m : Model r) → ShownModel (cancel_shown r m)
  unfolding cancel_shown ShownModel
  cancel_shown-ShownModel m = cancels refl

  conclude-ShownModel : (count : ℕ) (m : Model r) → ShownModel (conclude r count m)
  unfolding conclude ShownModel
  conclude-ShownModel count (snapshot, w) = elim (Bool-cases (r.is_canceled w).0) [
    | inl e ↦ rw (e, conclude) (cancel_shown-ShownModel _)
    | inr e ↦ elim (Bool-cases (count == k_rx_packet_count)) [
      | inr f ↦ rw (e, f, conclude) (fail-ShownModel rx_item _ _)
      | inl f ↦ rw (e, f, conclude) (passes refl refl refl)
    ]
  ]

  listen-ShownModel : (m : Model r) → AllIs r ShownModel (listen r m)
  unfolding listen AllIs concluded IsFailed
  listen-ShownModel (snapshot, w) =
      elim (Option-cases (
        receive r (k_rx_timeout_ms + 2) ((r.now (r.now w).1).0 + k_rx_timeout_ms) 0
          (validating r snapshot, (r.now (r.now w).1).1))) [
            | inl e ↦ rw (e, listen) tt
            | inr (heard count m, e) ↦ rw (e, listen, concluded) (conclude-ShownModel count m)
            | inr (ended m, e) ↦
                let (message, failing, f) = receive-IsFailed r _ _ 0 _ m e in
                rw (e, listen, concluded)
                  (subst (λ x. ShownModel x) f (fail-ShownModel rx_item message failing))
          ]

  -- What a run ends with is PASSED with both items passed, FAILED with an item that is failed and
  -- none that is still running, or CANCELED.
  pub start-IsShown : (draws : ℕ) (m m' : Model r) → start r draws m ≡ some m' → IsShown m'.0
  unfolding AllIs ShownModel
  start-IsShown draws (snapshot, w) m' e =
      subst (λ o. AllIs r ShownModel o) e
        (run-AllIs r ShownModel (λ w. Unit) (λ w w' leads reached. tt) fail-ShownModel
          cancel_shown-ShownModel (λ m reached. listen-ShownModel m) draws (started r snapshot, w)
          tt)
