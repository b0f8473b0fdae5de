-- ===== src/CapFixture/Timely.antt =====
-- src/model/cap_fixture_test_model.cpp: steps that do not take the clock back and whose loops have enough
-- rounds. A rule for each way in which a stage is made.
use factory_test.Common.{
  ◌≡◌, refl, ◌∙◌, Bool, true, false, Option, none, some, ℕ, zero, suc, ◌+◌, ◌≤◌, leb, le→leb, ltb,
  String, List, Bool-cases, inl, inr, arith,
}
use factory_test.Files.{Result, ok, err, Action}
use factory_test.CapFixture.Types.{CapFixtureTestModel, CapFixtureRunState, Rig}
use factory_test.CapFixture.Stage.{
  Machine, Stage, ◌>>=◌, ◌>>◌, done, stop, branch, on_option, on_result, change_model, the_model,
  fail, hardware, or_fail, call_or_fail, cancel_requested, now, sleep, before_deadline, overran,
  publish, begin_item, pass_item,
}
use factory_test.CapFixture.Steps.{delay, delay_round}
use factory_test.CapFixture.Steps.Waits.{ClockLaws}
pub mod Loops
pub mod Delays
pub mod Stages
pub mod Channels
pub mod Runs

-- A call does not take the clock back.
pub record Forward {r : Rig} (clock : ClockLaws r) {A : Type 0} (call : Action r.World A)
    : Type 0 where
  pub at_call : (w : r.World) → clock.time w ≤ clock.time (call w).1

-- A step, from a time on, does not take the clock back and has rounds enough for its loops.
pub record Timely (r : Rig) (clock : ClockLaws r) (from : ℕ) {A : Type 0} (step : Stage r A)
    : Type 0 where
  pub at :
      (m : Machine r)
      → from ≤ clock.time m.world
      → (clock.time m.world ≤ clock.time (step m).1.world) × ((step m).1.overrun ≡ m.overrun)

-- The body of a loop, which takes a millisecond at least if the loop goes on.
pub record Moves (r : Rig) (clock : ClockLaws r) (from : ℕ) {A : Type 0} (body : Stage r (Option A))
    : Type 0 where
  pub timely : Timely r clock from body
  pub later :
      (m : Machine r)
      → from ≤ clock.time m.world
      → (body m).0 ≡ some none
      → suc from ≤ clock.time (body m).1.world

module _ {r : Rig} {clock : ClockLaws r} {from : ℕ} where
  pub Timely-done : {A : Type 0} (a : A) → Timely r clock from (done a)
  unfolding done
  Timely-done a = record { at = λ m h. (omega arith, refl) }

  pub Timely-stop : {A : Type 0} → Timely r clock from (stop {A = A})
  unfolding stop
  Timely-stop = record { at = λ m h. (omega arith, refl) }

  pub Timely-the_model : Timely r clock from (the_model r)
  unfolding the_model
  Timely-the_model = record { at = λ m h. (omega arith, refl) }

  pub Timely-change_model :
      (f : CapFixtureTestModel → CapFixtureTestModel) → Timely r clock from (change_model r f)
  unfolding change_model
  Timely-change_model f = record { at = λ m h. (omega arith, refl) }

  pub Timely-publish :
      (state : CapFixtureRunState) (headline : String)
      → Timely r clock from (publish r state headline)
  unfolding publish
  Timely-publish state headline = record { at = λ m h. (omega arith, refl) }

  pub Timely-begin_item :
      (index : ℕ) (detail : String) → Timely r clock from (begin_item r index detail)
  unfolding begin_item
  Timely-begin_item index detail = record { at = λ m h. (omega arith, refl) }

  pub Timely-pass_item :
      (index : ℕ) (detail : String) → Timely r clock from (pass_item r index detail)
  unfolding pass_item
  Timely-pass_item index detail = record { at = λ m h. (omega arith, refl) }

  pub Timely-fail :
      {A : Type 0} (stage message : String) → Timely r clock from (fail r {A = A} stage message)
  unfolding fail
  Timely-fail stage message = record { at = λ m h. (omega arith, refl) }

  pub Timely-hardware :
      {A : Type 0} (call : Action r.World A)
      → Forward clock call
      → Timely r clock from (hardware r call)
  unfolding hardware
  Timely-hardware call forward = record { at = λ m h. (forward.at_call m.world, refl) }

  pub Timely-cancel_requested : Timely r clock from (cancel_requested r)
  unfolding cancel_requested
  Timely-cancel_requested = record { at = λ m h. (clock.after_canceled m.world, refl) }

  pub Timely-sleep : (n : ℕ) → Timely r clock from (sleep r n)
  unfolding sleep
  Timely-sleep n = record {
    at = λ m h. (let slept = clock.after_sleep n m.world in omega (arith, slept), refl);
  }

  pub Timely-branch :
      {A : Type 0} (b : Bool) {s t : Stage r A}
      → Timely r clock from s
      → Timely r clock from t
      → Timely r clock from (branch b s t)
  unfolding branch
  Timely-branch true s t = s
  Timely-branch false s t = t

  pub Timely-on_option :
      {A B : Type 0} (o : Option A) {s : Stage r B} {f : A → Stage r B}
      → Timely r clock from s
      → ((a : A) → Timely r clock from (f a))
      → Timely r clock from (on_option o s f)
  unfolding on_option
  Timely-on_option none s f = s
  Timely-on_option (some a) s f = f a

  pub Timely-on_result :
      {A B : Type 0} (o : Result A) {s : String → Stage r B} {f : A → Stage r B}
      → ((message : String) → Timely r clock from (s message))
      → ((a : A) → Timely r clock from (f a))
      → Timely r clock from (on_result o s f)
  unfolding on_result
  Timely-on_result (err message) s f = s message
  Timely-on_result (ok a) s f = f a

  bind_keeps :
      {A B : Type 0} (o : Option A) (before m : Machine r) (f : A → Stage r B)
      → from ≤ clock.time before.world
      → (clock.time before.world ≤ clock.time m.world) × (m.overrun ≡ before.overrun)
      → ((a : A) → Timely r clock from (f a))
      → (let next = elim o as (λ _. Option B × Machine r) [ none ↦ (none, m) | some a ↦ f a m ] in
          (clock.time before.world ≤ clock.time next.1.world) × (next.1.overrun ≡ before.overrun))
  bind_keeps none before m f h first next = first
  bind_keeps (some a) before m f h (later, same) next =
      let (later', same') = (next a).at m (omega (arith, h, later)) in
      (omega (arith, later, later'), same' ∙ same)

  pub Timely-bind :
      {A B : Type 0} {s : Stage r A} {f : A → Stage r B}
      → Timely r clock from s
      → ((a : A) → Timely r clock from (f a))
      → Timely r clock from (s >>= f)
  unfolding ◌>>=◌
  Timely-bind {s} {f} first next = record {
    at = λ m h. bind_keeps (s m).0 m (s m).1 f h (first.at m h) next;
  }

  pub Timely-seq :
      {B : Type 0} {s : Stage r (Unit {0})} {t : Stage r B}
      → Timely r clock from s
      → Timely r clock from t
      → Timely r clock from (s >> t)
  unfolding ◌>>◌
  Timely-seq first next = Timely-bind first (λ _. next)

  -- What follows a look at the clock starts at the time that it gave.
  pub Timely-now :
      {B : Type 0} {f : ℕ → Stage r B}
      → ((t : ℕ) → from ≤ t → Timely r clock t (f t))
      → Timely r clock from (now r >>= f)
  unfolding ◌>>=◌ now
  Timely-now next = record {
    at = λ m h.
        let at_now = clock.at_now m.world in
        let kept = clock.after_now m.world in
        let (later, same) =
          (next (r.now m.world).0 (omega (arith, h, at_now))).at
            (record m { world = (r.now m.world).1 }) (omega (arith, at_now, kept)) in
        (omega (arith, kept, later), same);
  }

  -- What follows a sleep starts later.
  pub Timely-slept :
      {B : Type 0} (n : ℕ) {t : Stage r B}
      → Timely r clock (from + n) t
      → Timely r clock from (sleep r n >> t)
  unfolding ◌>>◌ ◌>>=◌ sleep
  Timely-slept n next = record {
    at = λ m h.
        let slept = clock.after_sleep n m.world in
        let (later, same) =
          next.at (record m { world = r.sleep n m.world }) (omega (arith, h, slept)) in
        (omega (arith, slept, later), same);
  }

  pub Timely-or_fail :
      {A : Type 0} (stage message : String) (result : Result A)
      → Timely r clock from (or_fail r stage message result)
  unfolding or_fail
  Timely-or_fail stage message result =
      Timely-on_result result (λ error. Timely-fail stage _) (λ a. Timely-done a)

  pub Timely-call_or_fail :
      {A : Type 0} (stage message : String) (call : Action r.World A)
      → Forward clock call
      → Timely r clock from (call_or_fail r stage message call)
  unfolding call_or_fail
  Timely-call_or_fail stage message call forward =
      Timely-bind (Timely-hardware call forward) (λ result. Timely-or_fail stage message result)
