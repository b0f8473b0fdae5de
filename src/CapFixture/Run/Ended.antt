-- ===== src/CapFixture/Run/Ended.antt =====
-- src/model/cap_fixture_test_model.cpp: a run that is not canceled shows its result.
use factory_test.Common.{
  ◌≡◌, refl, ◌∙◌, sym, ap, ◌⊎◌, inl, inr, Bool, true, false, List, Option, none, some,
}
use factory_test.CapFixture.Types.{CapFixtureRunState, CapFixtureItemState, Rig}
use factory_test.CapFixture.Stage.{
  Machine, ◌>>=◌, cancel_requested, publish, branch, on_option, done,
}
use factory_test.CapFixture.Outcomes.{After, Canceled}
use factory_test.CapFixture.Items.{Running, Stopped, by_cancel, by_failure, states}
use factory_test.CapFixture.Run.{sequence, finish_run, cleanup, after_reset, run, start}
use factory_test.CapFixture.Run.Cleanup.{cleanup-snapshot}
use factory_test.CapFixture.Run.Passed.{Ends-sequence, Ends-setup, put_all}

-- The state that a machine shows is PASSED or FAILED.
abbrev HasResult : {r : Rig} → Machine r → Type 0
HasResult m =
    (m.model.snapshot.state ≡ CapFixtureRunState.passed)
    ⊎ (m.model.snapshot.state ≡ CapFixtureRunState.failed)

module _ {r : Rig} (uncanceled : (w : r.World) → (r.is_canceled w).0 ≡ false) where
  not_canceled : {A : Type 0} → Canceled r → A
  not_canceled canceled =
      absurd (let bad : true ≡ false = sym canceled.at_seen ∙ uncanceled canceled.seen_in in cc)

  stopped_failed :
      (m m' : Machine r) → m'.model.snapshot ≡ m.model.snapshot → Stopped r m.model → HasResult m'
  stopped_failed m m' shown (by_cancel canceled _) = not_canceled canceled
  stopped_failed m m' shown (by_failure failed) = inr (ap (λ s. s.state) shown ∙ failed)

  finished-HasResult :
      (all : List CapFixtureItemState) (b : Bool) (o : Option (Unit {0})) (m m' : Machine r)
      → b ≡ false
      → m'.model.snapshot ≡ m.model.snapshot
      → After (Running all) (Stopped r) o m.model
      → HasResult
          (branch b
            (publish r CapFixtureRunState.canceled "Fixture test canceled")
            (on_option o
              (done tt)
              (λ _. publish r CapFixtureRunState.passed "All fixture tests passed"))
            m').1
  unfolding branch on_option done publish After
  finished-HasResult all true o m m' e shown h = absurd (let bad : true ≡ false = e in cc)
  finished-HasResult all false none m m' e shown h = stopped_failed m m' shown h
  finished-HasResult all false (some _) m m' e shown h = inl refl

  after_reset-HasResult :
      (ss : List CapFixtureItemState) (o : Option (Unit {0})) (m : Machine r)
      → After (Running ss) (Stopped r) o m.model
      → HasResult (after_reset r o m)
  unfolding after_reset finish_run ◌>>=◌ cancel_requested After
  after_reset-HasResult ss none m h = stopped_failed m (cleanup r m).1 (cleanup-snapshot m) h
  after_reset-HasResult ss (some _) m h =
      let m' : Machine r = (sequence r m).1 in
      finished-HasResult (put_all ss) _ (sequence r m).0 m' _ (uncanceled (cleanup r m').1.world)
        (cleanup-snapshot m') (Ends-sequence.at m h)

-- A run that is never canceled ends with PASSED or FAILED shown, whatever the services answer.
pub start-HasResult :
    (r : Rig) (m : Machine r)
    → ((w : r.World) → (r.is_canceled w).0 ≡ false)
    → ((start r false m).model.snapshot.state ≡ CapFixtureRunState.passed)
      ⊎ ((start r false m).model.snapshot.state ≡ CapFixtureRunState.failed)
unfolding start run
start-HasResult r m uncanceled =
    after_reset-HasResult uncanceled (states m.model.snapshot.items) _ _ (
      (Ends-setup {ss = states m.model.snapshot.items}).at _
        (record { state_running = refl; item_states = refl }))
