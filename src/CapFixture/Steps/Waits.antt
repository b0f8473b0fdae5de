-- ===== src/CapFixture/Steps/Waits.antt =====
-- src/model/cap_fixture_test_model.cpp: a loop with a deadline goes on until it has passed, and delay_ waits
-- as long as it is asked to.
use factory_test.Common.{
  ◌≡◌, refl, ap, Bool, true, false, Option, none, some, ℕ, zero, suc, ◌+◌, ◌≤◌, leb, leb→le, arith,
}
use factory_test.CapFixture.Types.{Rig}
use factory_test.CapFixture.Stage.{
  Machine, Stage, overran, ◌>>=◌, ◌>>◌, done, stop, branch, on_option, cancel_requested, now, sleep,
  before_deadline,
}
use factory_test.CapFixture.Steps.{delay, delay_round}

-- What the waiting relies on: the clock does not go back, and a sleep takes as long as is asked for.
pub record ClockLaws (r : Rig) : Type 0 where
  pub time : r.World → ℕ
  pub at_now : (w : r.World) → (r.now w).0 ≡ time w
  pub after_now : (w : r.World) → time w ≤ time (r.now w).1
  pub after_sleep : (n : ℕ) (w : r.World) → time w + n ≤ time (r.sleep n w)
  pub after_canceled : (w : r.World) → time w ≤ time (r.is_canceled w).1

module _ {r : Rig} (clock : ClockLaws r) where
  open clock use {time}

  abbrev time_of : Machine r → ℕ
  time_of m = time m.world

  -- A body that takes a millisecond at least whenever the loop goes on.
  abbrev Advances : {A : Type 0} → Stage r (Option A) → Type 0
  Advances body = (m : Machine r) → (body m).0 ≡ some none → suc (time_of m) ≤ time_of (body m).1

  module _ {A : Type 0} (body : Stage r (Option A)) (advances : Advances body) where
    LateFrom : Stage r (Option A) → ℕ → Machine r → Type 0
    LateFrom step deadline m = (step m).0 ≡ some none → deadline ≤ time_of (step m).1

    body_late :
        (o : Option (Option A)) (m : Machine r) (rest : Stage r (Option A)) (deadline : ℕ)
        → (o ≡ some none → LateFrom rest deadline m)
        → (let step = elim o as (λ _. Option (Option A) × Machine r) [
          | none ↦ (none, m)
          | some o' ↦ on_option o' rest (λ a. done (some a)) m
        ] in
            step.0 ≡ some none → deadline ≤ time_of step.1)
    unfolding LateFrom on_option done
    body_late none m rest deadline late h = absurd (let bad : none ≡ some none = h in cc)
    body_late (some none) m rest deadline late h = late refl h
    body_late (some (some a)) m rest deadline late h =
        absurd (let bad : some (some a) ≡ some none = h in cc)

    round_late :
        (b : Bool) (m : Machine r) (rest : Stage r (Option A)) (deadline : ℕ)
        → (b ≡ true → deadline ≤ time_of m)
        → ((m' : Machine r) → suc (time_of m) ≤ time_of m' → LateFrom rest deadline m')
        → LateFrom
            (branch b (done none) (body >>= λ o. on_option o rest (λ a. done (some a))))
            deadline
            m
    unfolding LateFrom branch done ◌>>=◌
    round_late true m rest deadline over late h = over refl
    round_late false m rest deadline over late h =
        body_late (body m).0 (body m).1 rest deadline (λ e. late (body m).1 (advances m e)) h

    -- If the loop ends without a result, the deadline has passed, as long as it had a round for each
    -- millisecond.
    before_deadline-LateFrom :
        (rounds deadline : ℕ) (m : Machine r)
        → deadline ≤ time_of m + rounds
        → LateFrom (before_deadline r rounds deadline body) deadline m
    unfolding before_deadline LateFrom ◌>>=◌ ◌>>◌ overran now done
    before_deadline-LateFrom zero deadline m enough h = omega (arith, enough)
    before_deadline-LateFrom (suc rounds) deadline m enough h =
        let t = (r.now m.world).0 in
        let m' : Machine r = record m { world = (r.now m.world).1 } in
        let at_now : t ≡ time_of m = clock.at_now m.world in
        let kept : time_of m ≤ time_of m' = clock.after_now m.world in
        round_late (leb deadline t) m' (before_deadline r rounds deadline body) deadline
          (λ over.
            let le : deadline ≤ t = leb→le deadline t over in omega (arith, le, at_now, kept))
          (λ m'' later.
            before_deadline-LateFrom rounds deadline m'' (omega (arith, enough, kept, later)))
          h

  sleeping_round :
      (b : Bool) (m : Machine r)
      → (branch b (done (some tt)) (sleep r 10 >> done none) m).0 ≡ some none
      → suc (time_of m) ≤ time_of (branch b (done (some tt)) (sleep r 10 >> done none) m).1
  unfolding branch done sleep ◌>>◌ ◌>>=◌
  sleeping_round true m h = absurd (let bad : some (some tt) ≡ some none = h in cc)
  sleeping_round false m h = let slept = clock.after_sleep 10 m.world in omega (arith, slept)

  delay_round-Advances : Advances (delay_round r)
  unfolding ◌>>=◌ cancel_requested
  delay_round-Advances m h =
      let kept = clock.after_canceled m.world in
      let slept =
        sleeping_round (r.is_canceled m.world).0 (record m { world = (r.is_canceled m.world).1 })
          h in
      omega (arith, kept, slept)

  not_interrupted :
      (o : Option (Option (Unit {0}))) (m : Machine r)
      → (let step = elim o as (λ _. Option (Unit {0}) × Machine r) [
        | none ↦ (none, m)
        | some o' ↦ on_option o' (done tt) (λ _. stop) m
      ] in
          step.0 ≡ some tt → (o ≡ some none) × (step.1 ≡ m))
  unfolding on_option done stop
  not_interrupted none m h = absurd (let bad : none ≡ some tt = h in cc)
  not_interrupted (some none) m h = (refl, refl)
  not_interrupted (some (some _)) m h = absurd (let bad : none ≡ some tt = h in cc)

-- Under the laws of the clock, delay_ has enough rounds: when it returns true, the milliseconds that it
-- was asked to wait have passed.
pub delay-waits :
    (r : Rig) (clock : ClockLaws r) (milliseconds : ℕ) (m : Machine r)
    → (delay r milliseconds m).0 ≡ some tt
    → clock.time m.world + milliseconds ≤ clock.time (delay r milliseconds m).1.world
unfolding delay ◌>>=◌ now LateFrom
delay-waits r clock milliseconds m h =
    let t = (r.now m.world).0 in
    let m' : Machine r = record m { world = (r.now m.world).1 } in
    let loop = before_deadline r (milliseconds + 1) (t + milliseconds) (delay_round r) in
    let (over, same) = not_interrupted clock (loop m').0 (loop m').1 h in
    let at_now : t ≡ clock.time m.world = clock.at_now m.world in
    let kept : clock.time m.world ≤ clock.time m'.world = clock.after_now m.world in
    let late : t + milliseconds ≤ clock.time (loop m').1.world =
      before_deadline-LateFrom clock (delay_round r) (delay_round-Advances clock) (milliseconds + 1)
        (t + milliseconds) m' (omega (arith, at_now, kept)) over in
    let reached : clock.time (delay r milliseconds m).1.world ≡ clock.time (loop m').1.world =
      ap (λ m''. clock.time m''.world) same in
    omega (arith, late, at_now, reached)
