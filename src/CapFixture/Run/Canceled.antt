-- ===== src/CapFixture/Run/Canceled.antt =====
-- src/model/cap_fixture_test_model.cpp: runs that end before the first stage.
use factory_test.Common.{
  ◌≡◌, refl, ◌∙◌, sym, ap, subst, true, false, ℕ, suc, String, concat, List, [], ◌∷◌, Option, none,
  some,
}
use factory_test.Files.{Result, ok, err, Action}
use factory_test.CapFixture.Types.{
  CapFixtureRunState, CapFixtureItemState, CapFixtureSnapshot, CapFixtureTestModel, Rig,
}
use factory_test.CapFixture.Stage.{
  Machine, Stage, ◌>>=◌, ◌>>◌, done, stop, branch, on_option, cancel_requested, on_result, fail,
  hardware, or_fail, call_or_fail, change_item, published, show,
}
use factory_test.CapFixture.Steps.{delay}
use factory_test.CapFixture.Constants.{software_reset_delay_ms}
use factory_test.CapFixture.Run.{
  new_model, power_up, prepare, reset_attempts, reset_failed, software_reset, after_reset, run,
  start,
}
use factory_test.CapFixture.Items.{states}
use factory_test.CapFixture.Outcomes.{Condition, After, Ends, Ends-seq, Ends-change_model}
use factory_test.CapFixture.Moved.{Ends-delay}
use factory_test.CapFixture.Run.Cleanup.{cleanup-snapshot, Shown}

module _ {r : Rig} where
  run-none :
      (m : Machine r)
      → ((prepare r >> software_reset r) m).0 ≡ none
      → (run r m).model.snapshot ≡ ((prepare r >> software_reset r) m).1.model.snapshot
  unfolding run after_reset
  run-none m e = rw e (cleanup-snapshot _)

  or_fail-err :
      {A B : Type 0} (stage message error : String) (result : Result A) (f : A → Stage r B)
      (m : Machine r)
      → result ≡ err error
      → (or_fail r stage message result >>= f) m ≡ fail r stage (concat message error) m
  unfolding ◌>>=◌ or_fail on_result fail
  or_fail-err stage message error result f m e =
      subst (λ x. (or_fail r stage message x >>= f) m ≡ fail r stage (concat message error) m)
        (sym e) refl

  then-fail :
      {A B : Type 0} (stage message : String) (s : Stage r A) (f : A → Stage r B) (m m' : Machine r)
      → s m ≡ fail r stage message m'
      → (s >>= f) m ≡ fail r stage message m'
  unfolding ◌>>=◌ fail
  then-fail {B} stage message s f m m' e =
      ap (λ x. elim x.0 as (λ _. Option B × Machine r) [ none ↦ (none, x.1) | some a ↦ f a x.1 ]) e

  then-some :
      {A B : Type 0} (s : Stage r A) (f : A → Stage r B) (m m' : Machine r) (a : A)
      → s m ≡ (some a, m')
      → (s >>= f) m ≡ f a m'
  unfolding ◌>>=◌
  then-some {B} s f m m' a e =
      ap (λ x. elim x.0 as (λ _. Option B × Machine r) [ none ↦ (none, x.1) | some a ↦ f a x.1 ]) e

  -- The preparation when the first call fails.
  prepare-err :
      (error : String) (m : Machine r)
      → (r.set_external_bus_uart_mode m.world).0 ≡ err error
      → (prepare r >> software_reset r) m
        ≡ fail r "PREPARE"
            (concat "failed to keep I2C on HAT: " error)
            (record m { world = (r.set_external_bus_uart_mode m.world).1 })
  unfolding prepare ◌>>◌ ◌>>=◌ call_or_fail hardware
  prepare-err error m e =
      then-fail "PREPARE" _ (prepare r) (λ _. software_reset r) m _
        (or_fail-err "PREPARE" "failed to keep I2C on HAT: " error _ (λ _. power_up r) _ e)

-- The items when the first call of a run of a new model fails: USB has failed, the others wait.
abbrev pub usb_failed : List CapFixtureItemState
usb_failed =
    CapFixtureItemState.pending ∷ CapFixtureItemState.pending ∷ CapFixtureItemState.pending
    ∷ CapFixtureItemState.pending ∷ CapFixtureItemState.pending ∷ CapFixtureItemState.pending
    ∷ CapFixtureItemState.failed ∷ CapFixtureItemState.pending ∷ []

abbrev fresh : (r : Rig) → r.World → Machine r
fresh r w = record { model = new_model; world = w; overrun = false }

-- If the first call of the first run fails, the run ends with FAILED and the item USB is FAILED, which
-- has not begun; all other items still wait.
pub start-prepare_failed :
    (r : Rig) (w : r.World) (error : String)
    → (r.set_external_bus_uart_mode (r.clear_cancel w)).0 ≡ err error
    → ((start r false (fresh r w)).model.snapshot.state ≡ CapFixtureRunState.failed)
      × (states (start r false (fresh r w)).model.snapshot.items ≡ usb_failed)
unfolding start fail states change_item
start-prepare_failed r w error e =
    let m : Machine r = record (fresh r w) {
      model = record new_model {
        snapshot = published CapFixtureRunState.running "Resetting CAP fixture" new_model.snapshot;
      };
      world = r.clear_cancel w;
    } in
    let ends = prepare-err error m e in
    let shown = run-none m (ap (λ x. x.0) ends) ∙ ap (λ x. x.1.model.snapshot) ends in
    (ap (λ s. s.state) shown, ap (λ s. states s.items) shown)

-- No model: a step that ends with it has no result.
abbrev Never : Condition
Never m = ⊥

never_ends :
    {A : Type 0} {s : CapFixtureSnapshot} (o : Option A) (m : CapFixtureTestModel)
    → After Never (Shown s) o m
    → (o ≡ none) × (m.snapshot ≡ s)
unfolding After
never_ends none m h = (refl, h)
never_ends (some _) m h = absurd h

module _ {r : Rig} {s : CapFixtureSnapshot} where
  Ends-attempt_ok :
      (stage message : String) (call : Action r.World (Unit {0}))
      → ((w : r.World) → (call w).0 ≡ ok tt)
      → Ends r (Shown s) (Shown s) (Shown s) (call_or_fail r stage message call)
  unfolding call_or_fail ◌>>=◌ hardware or_fail on_result done After
  Ends-attempt_ok stage message call succeeds = record {
    at = λ m h.
        let after : Machine r = record m { world = (call m.world).1 } in
        subst
          (λ result.
            let o = or_fail r stage message result after in After (Shown s) (Shown s) o.0 o.1.model)
          (sym (succeeds m.world)) h;
  }

  Ends-prepare :
      ((w : r.World) → (r.set_external_bus_uart_mode w).0 ≡ ok tt)
      → ((w : r.World) → (r.set_ext_5v_enabled true w).0 ≡ ok tt)
      → Ends r (Shown s) (Shown s) (Shown s) (prepare r)
  unfolding prepare power_up
  Ends-prepare bus power = Ends-seq (Ends-attempt_ok _ _ _ bus) (
      Ends-seq (Ends-change_model {Q = Shown s} _ (λ m h. h))
        (Ends-seq (Ends-attempt_ok _ _ _ power) (Ends-delay (λ canceled m h. h) _)))

module _ {r : Rig} (canceled : (w : r.World) → (r.is_canceled w).0 ≡ true) where
  reset_attempts-canceled :
      (attempts : ℕ) (error : String) (m : Machine r)
      → reset_attempts r (suc attempts) error m
        ≡ (some (some error), record m { world = (r.is_canceled m.world).1 })
  unfolding reset_attempts ◌>>=◌ cancel_requested branch done
  reset_attempts-canceled attempts error m = rw (canceled m.world)

  reset_failed-canceled :
      (error : String) (m : Machine r)
      → reset_failed r error m ≡ (none, record m { world = (r.is_canceled m.world).1 })
  unfolding ◌>>=◌ cancel_requested branch stop
  reset_failed-canceled error m = rw (canceled m.world)

  -- The reset ends without a result and shows nothing.
  software_reset-canceled :
      (m : Machine r)
      → ((software_reset r m).0 ≡ none) × ((software_reset r m).1.model.snapshot ≡ m.model.snapshot)
  unfolding software_reset on_option
  software_reset-canceled m =
      let attempts =
        then-some (reset_attempts r 5 "")
          (λ o. on_option o (delay r software_reset_delay_ms) (reset_failed r)) m _ _
          (reset_attempts-canceled 4 "" m) in
      let ends = attempts ∙ reset_failed-canceled "" _ in
      (ap (λ x. x.0) ends, ap (λ x. x.1.model.snapshot) ends)

  Ends-software_reset :
      {s : CapFixtureSnapshot} → Ends r (Shown s) Never (Shown s) (software_reset r)
  unfolding After
  Ends-software_reset {s} = record {
    at = λ m h.
        let (nothing, shown) = software_reset-canceled m in
        subst (λ o. After Never (Shown s) o (software_reset r m).1.model) (sym nothing) (shown ∙ h);
  }

  setup-canceled :
      (m : Machine r)
      → ((w : r.World) → (r.set_external_bus_uart_mode w).0 ≡ ok tt)
      → ((w : r.World) → (r.set_ext_5v_enabled true w).0 ≡ ok tt)
      → (((prepare r >> software_reset r) m).0 ≡ none)
        × (((prepare r >> software_reset r) m).1.model.snapshot ≡ m.model.snapshot)
  setup-canceled m bus power =
      never_ends ((prepare r >> software_reset r) m).0 ((prepare r >> software_reset r) m).1.model
        ((Ends-seq (Ends-prepare bus power) Ends-software_reset).at m refl)

-- If the run is canceled from its start on and the first two calls succeed, it ends with RUNNING still
-- shown.
pub start-canceled_running :
    (r : Rig) (m : Machine r)
    → ((w : r.World) → (r.is_canceled w).0 ≡ true)
    → ((w : r.World) → (r.set_external_bus_uart_mode w).0 ≡ ok tt)
    → ((w : r.World) → (r.set_ext_5v_enabled true w).0 ≡ ok tt)
    → (start r false m).model.snapshot.state ≡ CapFixtureRunState.running
unfolding start
start-canceled_running r m canceled bus power =
    let m' : Machine r =
      show r (published CapFixtureRunState.running "Resetting CAP fixture")
        (record m { world = r.clear_cancel m.world }) in
    let (nothing, shown) = setup-canceled canceled m' bus power in
    ap (λ s. s.state) (run-none m' nothing ∙ shown)
