-- ===== src/CapFixture/Items.antt =====
-- src/model/cap_fixture_test_model.cpp: what the stages do to the states of the items.
use factory_test.Common.{◌≡◌, refl, ap, ◌∙◌, ℕ, zero, suc, String, List, [], ◌∷◌}
use factory_test.CapFixture.Types.{
  CapFixtureRunState, CapFixtureItemState, CapFixtureItemSnapshot, CapFixtureSnapshot,
  CapFixtureTestModel, Rig,
}
use factory_test.CapFixture.Stage.{Stage, ◌>>=◌, ◌>>◌, begin_item, pass_item, change_item, set_item}
use factory_test.CapFixture.Outcomes.{Condition, After, Ends, Failing, Canceled}

unfoldable pub states : List CapFixtureItemSnapshot → List CapFixtureItemState
states [] = []
states (item ∷ items) = item.state ∷ states items

-- The states with one of them replaced.
unfoldable pub put : ℕ → CapFixtureItemState → List CapFixtureItemState → List CapFixtureItemState
put index state [] = []
put zero state (_ ∷ rest) = state ∷ rest
put (suc index) state (first ∷ rest) = first ∷ put index state rest

states-set_item :
    (index : ℕ) (state : CapFixtureItemState) (detail : String)
    (items : List CapFixtureItemSnapshot)
    → states (set_item index state detail items) ≡ put index state (states items)
unfolding states put change_item
states-set_item index state detail [] = refl
states-set_item zero state detail (item ∷ items) = refl
states-set_item (suc index) state detail (item ∷ items) =
    ap (λ rest. item.state ∷ rest) (states-set_item index state detail items)

put-put :
    (index : ℕ) (first second : CapFixtureItemState) (ss : List CapFixtureItemState)
    → put index second (put index first ss) ≡ put index second ss
unfolding put
put-put index first second [] = refl
put-put zero first second (_ ∷ rest) = refl
put-put (suc index) first second (s ∷ rest) =
    ap (λ rest. s ∷ rest) (put-put index first second rest)

-- The run is going on, and the items have the states `ss`.
pub record Going (ss : List CapFixtureItemState) (snapshot : CapFixtureSnapshot) : Type 0 where
  pub state_running : snapshot.state ≡ CapFixtureRunState.running
  pub item_states : states snapshot.items ≡ ss

abbrev pub Running : List CapFixtureItemState → Condition
Running ss m = Going ss m.snapshot

-- The run has ended without a result: it has failed, or it was canceled and is shown as running.
pub data StoppedAs (r : Rig) (snapshot : CapFixtureSnapshot) : Type 0 where
  by_cancel : Canceled r → snapshot.state ≡ CapFixtureRunState.running → StoppedAs r snapshot
  by_failure : snapshot.state ≡ CapFixtureRunState.failed → StoppedAs r snapshot

abbrev pub Stopped : Rig → Condition
Stopped r m = StoppedAs r m.snapshot

pub running_stops :
    {r : Rig} (ss : List CapFixtureItemState)
    → Canceled r
    → (m : CapFixtureTestModel) → Running ss m
    → Stopped r m
running_stops ss canceled m h = by_cancel canceled h.state_running

pub running_fails : {r : Rig} (ss : List CapFixtureItemState) → Failing r (Running ss) (Stopped r)
running_fails ss = record {
  at_stop = running_stops ss;
  at_fail = λ stage message m h. by_failure refl;
  at_second = λ stage message m h. by_failure refl;
}

module _ {r : Rig} {ss : List CapFixtureItemState} where
  pub Ends-begin_item :
      {A : Type 0} {Q : Condition} (index : ℕ) (detail : String) {t : Stage r A}
      → Ends r (Running (put index CapFixtureItemState.running ss)) Q (Stopped r) t
      → Ends r (Running ss) Q (Stopped r) (begin_item r index detail >> t)
  unfolding ◌>>◌ begin_item After ◌>>=◌
  Ends-begin_item index detail ends = record {
    at = λ m h. ends.at _ (record {
      state_running = h.state_running;
      item_states =
          states-set_item index CapFixtureItemState.running detail m.model.snapshot.items
          ∙ ap (put index CapFixtureItemState.running) h.item_states;
    });
  }

pub Ends-pass_item :
    {r : Rig} (ss : List CapFixtureItemState) (index : ℕ) (detail : String)
    → Ends r
        (Running (put index CapFixtureItemState.running ss))
        (Running (put index CapFixtureItemState.passed ss))
        (Stopped r)
        (pass_item r index detail)
unfolding pass_item After
Ends-pass_item ss index detail = record {
  at = λ m h. record {
    state_running = h.state_running;
    item_states =
        states-set_item index CapFixtureItemState.passed detail m.model.snapshot.items
        ∙ ap (put index CapFixtureItemState.passed) h.item_states
        ∙ put-put index CapFixtureItemState.running CapFixtureItemState.passed ss;
  };
}
