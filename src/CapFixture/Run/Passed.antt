-- ===== src/CapFixture/Run/Passed.antt =====
-- src/model/cap_fixture_test_model.cpp: how a run ends.
use factory_test.Common.{
  ◌≡◌, refl, ◌∙◌, sym, ap, subst, Bool, true, false, ℕ, zero, suc, String, List, [], ◌∷◌, Option,
  none, some,
}
use factory_test.CapFixture.Types.{
  CapFixtureRunState, CapFixtureItemState, CapFixtureSnapshot, CapFixtureTestModel, Rig,
}
use factory_test.CapFixture.Stage.{
  Machine, Stage, ◌>>=◌, ◌>>◌, cancel_requested, publish, branch, on_option, done,
}
use factory_test.CapFixture.Outcomes.{
  Condition, After, Ends, Ends-seq, Ends-canceled, Ends-next, Ends-done,
}
use factory_test.CapFixture.Moved.{Ends-delay}
use factory_test.CapFixture.Items.{
  Running, Stopped, by_cancel, by_failure, states, put, running_stops,
}
use factory_test.CapFixture.Staged.{
  Ends-run_power, Ends-run_i2c, Ends-run_grove_i2c, Ends-run_spi, Ends-run_usb, Ends-run_gpio,
  Ends-caught_kept, stage_rules,
}
use factory_test.CapFixture.Serial.{Ends-run_uart, Ends-run_grove_uart}
use factory_test.CapFixture.Steps.{delay}
use factory_test.CapFixture.Run.{
  power_up, prepare, reset_attempts, software_reset, sequence, finish_run, cleanup, after_reset,
  run, start,
}
use factory_test.CapFixture.Run.Cleanup.{cleanup-snapshot}

abbrev pub all_passed : List CapFixtureItemState
all_passed =
    CapFixtureItemState.passed ∷ CapFixtureItemState.passed ∷ CapFixtureItemState.passed
    ∷ CapFixtureItemState.passed ∷ CapFixtureItemState.passed ∷ CapFixtureItemState.passed
    ∷ CapFixtureItemState.passed ∷ CapFixtureItemState.passed ∷ []

module _ {r : Rig} {ss : List CapFixtureItemState} where
  guard :
      {B : Type 0} {Q : Condition} {t : Stage r B} (milliseconds : ℕ)
      → Ends r (Running ss) Q (Stopped r) t
      → Ends r (Running ss) Q (Stopped r) (delay r milliseconds >> t)
  guard milliseconds rest = Ends-seq (Ends-delay (running_stops ss) milliseconds) rest

abbrev pub put_all : List CapFixtureItemState → List CapFixtureItemState
put_all ss = put 7 CapFixtureItemState.passed (
    put 6 CapFixtureItemState.passed (
      put 5 CapFixtureItemState.passed (
        put 4 CapFixtureItemState.passed (
          put 3 CapFixtureItemState.passed (
            put 2 CapFixtureItemState.passed
              (put 1 CapFixtureItemState.passed (put 0 CapFixtureItemState.passed ss)))))))

module _ {r : Rig} {ss : List CapFixtureItemState} where
  pub Ends-sequence : Ends r (Running ss) (Running (put_all ss)) (Stopped r) (sequence r)
  unfolding sequence
  Ends-sequence = Ends-next Ends-run_power (
      guard _ (
        Ends-next Ends-run_i2c (
          guard _ (
            Ends-next Ends-run_grove_i2c (
              guard _ (
                Ends-next Ends-run_uart (
                  guard _ (
                    Ends-next Ends-run_grove_uart (
                      guard _ (
                        Ends-next Ends-run_spi
                          (guard _ (Ends-next Ends-run_usb (guard _ Ends-run_gpio)))))))))))))

  Ends-delay_kept :
      (milliseconds : ℕ) → Ends r (Running ss) (Running ss) (Running ss) (delay r milliseconds)
  Ends-delay_kept = Ends-delay (λ canceled m h. h)

  Ends-reset_attempts :
      (attempts : ℕ) (error : String)
      → Ends r (Running ss) (Running ss) (Stopped r) (reset_attempts r attempts error)
  unfolding reset_attempts
  Ends-reset_attempts zero error = Ends-done (some error)
  Ends-reset_attempts (suc attempts) error =
      search (stage_rules, Ends-caught_kept, Ends-delay_kept, Ends-reset_attempts attempts) depth 60

module _ {r : Rig} {ss : List CapFixtureItemState} where
  Ends-prepare : Ends r (Running ss) (Running ss) (Stopped r) (prepare r)
  unfolding prepare power_up
  Ends-prepare = search stage_rules depth 60

  Ends-software_reset : Ends r (Running ss) (Running ss) (Stopped r) (software_reset r)
  unfolding software_reset
  Ends-software_reset = search (Ends-canceled, stage_rules, Ends-reset_attempts) depth 60

  pub Ends-setup : Ends r (Running ss) (Running ss) (Stopped r) (prepare r >> software_reset r)
  Ends-setup = Ends-seq Ends-prepare Ends-software_reset

-- What a run leaves: a state other than PASSED, or all items PASSED.
abbrev Settled : CapFixtureSnapshot → Type 0
Settled s = s.state ≡ CapFixtureRunState.passed → states s.items ≡ all_passed

stopped-Settled : {r : Rig} (m : CapFixtureTestModel) → (Stopped r) m → Settled m.snapshot
stopped-Settled m (by_cancel _ running) passed =
    absurd (
      let bad : CapFixtureRunState.running ≡ CapFixtureRunState.passed = sym running ∙ passed in cc)
stopped-Settled m (by_failure failed) passed =
    absurd
      (let bad : CapFixtureRunState.failed ≡ CapFixtureRunState.passed = sym failed ∙ passed in cc)

module _ {r : Rig} where
  branch-Settled :
      (b : Bool) (o : Option (Unit {0})) (m m' : Machine r)
      → m'.model.snapshot ≡ m.model.snapshot
      → After (Running all_passed) (Stopped r) o m.model
      → Settled
          (branch b
            (publish r CapFixtureRunState.canceled "Fixture test canceled")
            (on_option o
              (done tt)
              (λ _. publish r CapFixtureRunState.passed "All fixture tests passed"))
            m').1.model.snapshot
  unfolding branch on_option done publish After
  branch-Settled true o m m' e h = λ passed.
      absurd (let bad : CapFixtureRunState.canceled ≡ CapFixtureRunState.passed = passed in cc)
  branch-Settled false none m m' e h = subst Settled (sym e) (stopped-Settled m.model h)
  branch-Settled false (some _) m m' e h = λ passed. ap (λ s. states s.items) e ∙ h.item_states

  finish_run-Settled :
      (o : Option (Unit {0})) (m : Machine r)
      → After (Running all_passed) (Stopped r) o m.model
      → Settled (finish_run r o (cleanup r m).1).1.model.snapshot
  unfolding finish_run ◌>>=◌ cancel_requested
  finish_run-Settled o m h = branch-Settled _ o m _ (cleanup-snapshot m) h

module _ {r : Rig} (ss : List CapFixtureItemState) (full : put_all ss ≡ all_passed) where
  after_reset-Settled :
      (o : Option (Unit {0})) (m : Machine r)
      → After (Running ss) (Stopped r) o m.model
      → Settled (after_reset r o m).model.snapshot
  unfolding After after_reset
  after_reset-Settled none m h =
      subst Settled (sym (cleanup-snapshot m)) (stopped-Settled m.model h)
  after_reset-Settled (some _) m h = finish_run-Settled (sequence r m).0 (sequence r m).1 (
      subst (λ all. After (Running all) (Stopped r) (sequence r m).0 (sequence r m).1.model) full
        (Ends-sequence.at m h))

  run-Settled : (m : Machine r) → Running ss m.model → Settled (run r m).model.snapshot
  unfolding run
  run-Settled m h =
      after_reset-Settled ((prepare r >> software_reset r) m).0
        ((prepare r >> software_reset r) m).1 (Ends-setup.at m h)

put_all_full :
    (a b c d e f g h : CapFixtureItemState)
    → put_all (a ∷ b ∷ c ∷ d ∷ e ∷ f ∷ g ∷ h ∷ []) ≡ all_passed
unfolding put
put_all_full a b c d e f g h = refl

-- If a run that starts with eight items ends with PASSED, all eight items are PASSED, whatever their
-- states were before, whatever the services answer and whenever the run is canceled.
pub start-passed :
    (r : Rig) (m : Machine r) (a b c d e f g h : CapFixtureItemState)
    → states m.model.snapshot.items ≡ a ∷ b ∷ c ∷ d ∷ e ∷ f ∷ g ∷ h ∷ []
    → (start r false m).model.snapshot.state ≡ CapFixtureRunState.passed
    → states (start r false m).model.snapshot.items ≡ all_passed
unfolding start
start-passed r m a b c d e f g h items =
    run-Settled _ (put_all_full a b c d e f g h) _
      (record { state_running = refl; item_states = items })
