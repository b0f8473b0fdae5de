-- ===== src/CapFixture/Stage.antt =====
-- src/model/cap_fixture_test_model.cpp: the steps that the stages are made of. A stage is a function of
-- the model and the world whose result is `none` where the source returns false.
use factory_test.Common.{
  Bool, true, false, ℕ, zero, suc, ◌+◌, ◌%◌, String, concat, List, [], ◌∷◌, get_elem?, leb, Option,
  none, some,
}
use factory_test.Files.{Result, ok, err, Action}
use factory_test.CapFixture.Types.{
  CapFixtureRunState, CapFixtureItemState, CapFixtureItemSnapshot, CapFixtureSnapshot,
  CapFixtureTestModel, Rig,
}

-- A step on a state `M`.
abbrev pub Step : Type 0 → Type 0 → Type 0
Step M A = M → Option A × M

infixl 5 ◌>>=◌ ◌>>◌
unfoldable pub ◌>>=◌ : {M A B : Type 0} → Step M A → (A → Step M B) → Step M B
◌>>=◌ step f m = let (o, m') = step m in elim o [ none ↦ (none, m') | some a ↦ f a m' ]

unfoldable pub ◌>>◌ : {M B : Type 0} → Step M (Unit {0}) → Step M B → Step M B
step >> k = step >>= λ _. k

unfoldable pub done : {M A : Type 0} → A → Step M A
done a m = (some a, m)

-- `return false`.
unfoldable pub stop : {M A : Type 0} → Step M A
stop m = (none, m)

-- A step that depends on a test, an optional value or a result.
unfoldable pub branch : {M A : Type 0} → Bool → Step M A → Step M A → Step M A
branch true yes_step no_step = yes_step
branch false yes_step no_step = no_step

unfoldable pub on_option : {M A B : Type 0} → Option A → Step M B → (A → Step M B) → Step M B
on_option none if_none if_some = if_none
on_option (some a) if_none if_some = if_some a

unfoldable pub on_result :
    {M A B : Type 0} → Result A → (String → Step M B) → (A → Step M B) → Step M B
on_result (err message) if_err if_ok = if_err message
on_result (ok a) if_err if_ok = if_ok a

unfoldable pub change_item :
    ℕ
    → (CapFixtureItemSnapshot → CapFixtureItemSnapshot)
    → List CapFixtureItemSnapshot
    → List CapFixtureItemSnapshot
change_item index f [] = []
change_item zero f (item ∷ items) = f item ∷ items
change_item (suc index) f (item ∷ items) = item ∷ change_item index f items

-- unsigned int revision.
abbrev pub next_revision : ℕ → ℕ
next_revision n = (n + 1) % 4294967296

abbrev pub set_item :
    ℕ → CapFixtureItemState → String → List CapFixtureItemSnapshot → List CapFixtureItemSnapshot
set_item index state detail items =
    change_item index (λ i. record i { state = state; detail = detail }) items

abbrev pub item_name : ℕ → List CapFixtureItemSnapshot → String
item_name index items = elim (get_elem? items index) [ none ↦ "" | some item ↦ item.name ]

-- The changes of the snapshot by publish_, begin_item_, pass_item_ and fail_; a change of an item past
-- the end does nothing, as `active_item_ < items.size()` has it.
abbrev pub published : CapFixtureRunState → String → CapFixtureSnapshot → CapFixtureSnapshot
published state headline s = record s {
  state = state;
  headline = headline;
  revision = next_revision s.revision;
}

abbrev pub begun : ℕ → String → CapFixtureSnapshot → CapFixtureSnapshot
begun index detail s = record s {
  active_index = index;
  items = set_item index CapFixtureItemState.running detail s.items;
  headline = concat "Running " (item_name index s.items);
  revision = next_revision s.revision;
}

abbrev pub item_passed : ℕ → String → CapFixtureSnapshot → CapFixtureSnapshot
item_passed index detail s = record s {
  items = set_item index CapFixtureItemState.passed detail s.items;
  revision = next_revision s.revision;
}

abbrev pub failure : String → String → ℕ → CapFixtureSnapshot → CapFixtureSnapshot
failure stage message active_item s = record s {
  state = CapFixtureRunState.failed;
  headline = concat stage " failed";
  error_message = message;
  items = set_item active_item CapFixtureItemState.failed message s.items;
  revision = next_revision s.revision;
}

module _ (r : Rig) where
  open r use {World}

  -- The model and the world. `overrun` is no state of the program: it says that a loop of the source,
  -- which has no bound but the clock, had more rounds than it is given here.
  pub record Machine : Type 0 where
    pub model : CapFixtureTestModel
    pub world : World
    pub overrun : Bool

  abbrev pub Stage : Type 0 → Type 0
  Stage A = Step Machine A

  -- A write to fields of the model other than the snapshot.
  unfoldable pub change_model : (CapFixtureTestModel → CapFixtureTestModel) → Stage (Unit {0})
  change_model f m = (some tt, record m { model = f m.model })

  abbrev pub show : (CapFixtureSnapshot → CapFixtureSnapshot) → Machine → Machine
  show f m = record m { model = record m.model { snapshot = f m.model.snapshot } }

  unfoldable pub the_model : Stage CapFixtureTestModel
  the_model m = (some m.model, m)

  unfoldable pub publish : CapFixtureRunState → String → Stage (Unit {0})
  publish state headline m = (some tt, show (published state headline) m)

  unfoldable pub begin_item : ℕ → String → Stage (Unit {0})
  begin_item index detail m = (
    some tt,
    record m {
      model = record m.model {
        active_item = index;
        snapshot = begun index detail m.model.snapshot;
      };
    },
  )

  unfoldable pub pass_item : ℕ → String → Stage (Unit {0})
  pass_item index detail m = (some tt, show (item_passed index detail) m)

  -- fail_ returns false: what comes after it is not run.
  unfoldable pub fail : {A : Type 0} → String → String → Stage A
  fail stage message m = (none, show (failure stage message m.model.active_item) m)

  -- A call of a service, with its result, and a call whose failure fails the stage under a message.
  unfoldable pub hardware : {A : Type 0} → Action World A → Stage (Result A)
  hardware call m = let (result, w) = call m.world in (some result, record m { world = w })

  unfoldable pub or_fail : {A : Type 0} → String → String → Result A → Stage A
  or_fail stage message result = on_result result (λ error. fail stage (concat message error)) done

  unfoldable pub call_or_fail : {A : Type 0} → String → String → Action World A → Stage A
  call_or_fail stage message call = do result ← hardware call; or_fail stage message result

  unfoldable pub cancel_requested : Stage Bool
  cancel_requested m = let (b, w) = r.is_canceled m.world in (some b, record m { world = w })

  unfoldable pub now : Stage ℕ
  now m = let (time, w) = r.now m.world in (some time, record m { world = w })

  unfoldable pub sleep : ℕ → Stage (Unit {0})
  sleep milliseconds m = (some tt, record m { world = r.sleep milliseconds m.world })

  -- The rounds of a loop did not suffice, which is kept for good.
  unfoldable pub overran : Stage (Unit {0})
  overran m = (some tt, record m { overrun = true })

  -- `while (now() < deadline) body`, where the body gives a result to leave the loop. The fuel is the
  -- number of rounds; without a result the deadline has passed, or the rounds did not suffice.
  unfoldable pub before_deadline : {A : Type 0} → ℕ → ℕ → Stage (Option A) → Stage (Option A)
  before_deadline zero deadline body = overran >> done none
  before_deadline (suc rounds) deadline body = do
    time ← now
    branch (leb deadline time) (done none)
        (do o ← body; on_option o (before_deadline rounds deadline body) (λ a. done (some a)))
