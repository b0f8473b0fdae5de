-- ===== src/CapFixture/Timely/Delays.antt =====
-- src/model/cap_fixture_test_model.cpp: a delay that is not canceled ends, and by its own test.
use factory_test.Common.{
  ◌≡◌, refl, Bool, true, false, Option, none, some, ℕ, zero, suc, ◌+◌, ◌≤◌, leb, arith,
}
use factory_test.CapFixture.Types.{Rig}
use factory_test.CapFixture.Stage.{
  Machine, Stage, ◌>>=◌, ◌>>◌, done, stop, branch, on_option, cancel_requested, now, sleep,
  before_deadline, overran,
}
use factory_test.CapFixture.Steps.{delay, delay_round}
use factory_test.CapFixture.Steps.Waits.{ClockLaws, delay-waits}
use factory_test.CapFixture.Timely.Loops.{Timely-delay}

module _ {r : Rig} where
  -- A body that never leaves the loop does not end it with a result.
  next_round :
      {A : Type 0} (o : Option (Option A)) (m : Machine r) (rest : Stage r (Option A))
      → o ≡ some none
      → (rest m).0 ≡ some none
      → (let step = elim o as (λ _. Option (Option A) × Machine r) [
        | none ↦ (none, m)
        | some o' ↦ on_option o' rest (λ a. done (some a)) m
      ] in
          step.0 ≡ some none)
  unfolding on_option
  next_round none m rest e h = absurd (let bad : none ≡ some none = e in cc)
  next_round (some none) m rest e h = h
  next_round (some (some a)) m rest e h = absurd (let bad : some (some a) ≡ some none = e in cc)

  round_ends :
      {A : Type 0} (b : Bool) (m : Machine r) (body rest : Stage r (Option A))
      → ((m : Machine r) → (body m).0 ≡ some none)
      → ((m : Machine r) → (rest m).0 ≡ some none)
      → (branch b (done none) (body >>= λ o. on_option o rest (λ a. done (some a))) m).0 ≡ some none
  unfolding branch done ◌>>=◌
  round_ends true m body rest goes_on ends = refl
  round_ends false m body rest goes_on ends =
      next_round (body m).0 (body m).1 rest (goes_on m) (ends (body m).1)

  before_deadline-ends :
      {A : Type 0} (rounds deadline : ℕ) (body : Stage r (Option A))
      → ((m : Machine r) → (body m).0 ≡ some none)
      → (m : Machine r) → (before_deadline r rounds deadline body m).0 ≡ some none
  unfolding before_deadline ◌>>=◌ ◌>>◌ overran now done
  before_deadline-ends zero deadline body goes_on m = refl
  before_deadline-ends (suc rounds) deadline body goes_on m =
      round_ends (leb deadline (r.now m.world).0) _ body (before_deadline r rounds deadline body)
        goes_on (before_deadline-ends rounds deadline body goes_on)

  goes_on :
      ((w : r.World) → (r.is_canceled w).0 ≡ false)
      → (m : Machine r) → (delay_round r m).0 ≡ some none
  unfolding ◌>>=◌ ◌>>◌ cancel_requested branch done sleep
  goes_on uncanceled m = rw (uncanceled m.world)

  returns_true :
      (o : Option (Option (Unit {0}))) (m : Machine r)
      → o ≡ some none
      → (let step = elim o as (λ _. Option (Unit {0}) × Machine r) [
        | none ↦ (none, m)
        | some o' ↦ on_option o' (done tt) (λ _. stop) m
      ] in
          step.0 ≡ some tt)
  unfolding on_option done
  returns_true none m e = absurd (let bad : none ≡ some none = e in cc)
  returns_true (some none) m e = refl
  returns_true (some (some u)) m e = absurd (let bad : some (some u) ≡ some none = e in cc)

-- In a run that is not canceled and under the laws of the clock, delay_ ends by the test of its own
-- loop, as its rounds do not run out, and it returns true after the milliseconds that it was asked to
-- wait.
pub delay-ends :
    (r : Rig) (clock : ClockLaws r) (milliseconds : ℕ) (m : Machine r)
    → ((w : r.World) → (r.is_canceled w).0 ≡ false)
    → ((delay r milliseconds m).1.overrun ≡ m.overrun)
      × ((delay r milliseconds m).0 ≡ some tt)
      × (clock.time m.world + milliseconds ≤ clock.time (delay r milliseconds m).1.world)
unfolding delay ◌>>=◌ now
delay-ends r clock milliseconds m uncanceled =
    let timely = (Timely-delay {clock = clock} 0 milliseconds).at m (omega arith) in
    let ends = returns_true _ _ (
      before_deadline-ends (milliseconds + 1) ((r.now m.world).0 + milliseconds) (delay_round r)
        (goes_on uncanceled) (record m { world = (r.now m.world).1 })) in
    (timely.1, ends, delay-waits r clock milliseconds m ends)
