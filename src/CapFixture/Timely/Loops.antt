-- ===== src/CapFixture/Timely/Loops.antt =====
-- src/model/cap_fixture_test_model.cpp: the loops that end by the clock have enough rounds.
use factory_test.Common.{
  ◌≡◌, refl, ◌∙◌, Bool, true, false, Option, none, some, ℕ, zero, suc, ◌+◌, ◌≤◌, leb, le→leb, arith,
}
use factory_test.CapFixture.Types.{Rig}
use factory_test.CapFixture.Stage.{
  Machine, Stage, ◌>>=◌, ◌>>◌, done, branch, on_option, now, sleep, before_deadline,
}
use factory_test.CapFixture.Steps.{delay, delay_round}
use factory_test.CapFixture.Steps.Waits.{ClockLaws, delay-waits}
use factory_test.CapFixture.Timely.{
  Timely, Moves, Timely-done, Timely-stop, Timely-bind, Timely-seq, Timely-now, Timely-sleep,
  Timely-cancel_requested, Timely-on_option,
}

module _ {r : Rig} {clock : ClockLaws r} {from : ℕ} where
  pub Moves-some : {A : Type 0} (a : A) → Moves r clock from (done (some a))
  unfolding done
  Moves-some a = record {
    timely = Timely-done (some a);
    later = λ m h e. absurd (let bad : some (some a) ≡ some none = e in cc);
  }

  pub Moves-branch :
      {A : Type 0} (b : Bool) {s t : Stage r (Option A)}
      → Moves r clock from s
      → Moves r clock from t
      → Moves r clock from (branch b s t)
  unfolding branch
  Moves-branch true s t = s
  Moves-branch false s t = t

  next_later :
      {A B : Type 0} (o : Option A) (m : Machine r) (f : A → Stage r (Option B))
      → from ≤ clock.time m.world
      → ((a : A) → Moves r clock from (f a))
      → (let next = elim o as (λ _. Option (Option B) × Machine r) [
        | none ↦ (none, m)
        | some a ↦ f a m
      ] in
          next.0 ≡ some none → suc from ≤ clock.time next.1.world)
  next_later none m f h next e = absurd (let bad : none ≡ some none = e in cc)
  next_later (some a) m f h next e = (next a).later m h e

  pub Moves-bind :
      {A B : Type 0} {s : Stage r A} {f : A → Stage r (Option B)}
      → Timely r clock from s
      → ((a : A) → Moves r clock from (f a))
      → Moves r clock from (s >>= f)
  unfolding ◌>>=◌
  Moves-bind {s} {f} first next = record {
    timely = Timely-bind first (λ a. (next a).timely);
    later = λ m h. next_later (s m).0 (s m).1 f (omega (arith, h, (first.at m h).0)) next;
  }

  pub Moves-seq :
      {B : Type 0} {s : Stage r (Unit {0})} {t : Stage r (Option B)}
      → Timely r clock from s
      → Moves r clock from t
      → Moves r clock from (s >> t)
  unfolding ◌>>◌
  Moves-seq first next = Moves-bind first (λ _. next)

  pub Moves-slept :
      {A : Type 0} (n : ℕ) → 1 ≤ n → Moves r clock from (sleep r n >> done {A = Option A} none)
  unfolding sleep done ◌>>◌ ◌>>=◌
  Moves-slept n positive = record {
    timely = Timely-seq (Timely-sleep n) (Timely-done none);
    later = λ m h e. (let slept = clock.after_sleep n m.world in omega (arith, h, positive, slept));
  }

  round_keeps :
      {A : Type 0} (o : Option (Option A)) (before m : Machine r) (rest : Stage r (Option A))
      → from ≤ clock.time before.world
      → (clock.time before.world ≤ clock.time m.world) × (m.overrun ≡ before.overrun)
      → (o ≡ some none → suc from ≤ clock.time m.world)
      → Timely r clock (suc from) rest
      → (let next = elim o as (λ _. Option (Option A) × Machine r) [
        | none ↦ (none, m)
        | some o' ↦ on_option o' rest (λ a. done (some a)) m
      ] in
          (clock.time before.world ≤ clock.time next.1.world) × (next.1.overrun ≡ before.overrun))
  unfolding on_option done
  round_keeps none before m rest h first moved next = first
  round_keeps (some none) before m rest h (later, same) moved next =
      let (later', same') = next.at m (moved refl) in (omega (arith, later, later'), same' ∙ same)
  round_keeps (some (some a)) before m rest h first moved next = first

  -- A round of a loop, and the rounds after it, which start a millisecond later at least.
  Timely-round :
      {A : Type 0} {body rest : Stage r (Option A)}
      → Moves r clock from body
      → Timely r clock (suc from) rest
      → Timely r clock from (body >>= λ o. on_option o rest (λ a. done (some a)))
  unfolding ◌>>=◌
  Timely-round {A} {body} {rest} moves next = record {
    at = λ m h.
        round_keeps (body m).0 m (body m).1 rest h (moves.timely.at m h) (moves.later m h) next;
  }

  pub Timely-if :
      {A : Type 0} (b : Bool) {s t : Stage r A}
      → (b ≡ true → Timely r clock from s)
      → (b ≡ false → Timely r clock from t)
      → Timely r clock from (branch b s t)
  unfolding branch
  Timely-if true s t = s refl
  Timely-if false s t = t refl

module _ {r : Rig} (clock : ClockLaws r) where
  delayed_later :
      {A : Type 0} (from milliseconds : ℕ) (o : Option (Unit {0})) (before m : Machine r)
      → 1 ≤ milliseconds
      → from ≤ clock.time before.world
      → (o ≡ some tt → clock.time before.world + milliseconds ≤ clock.time m.world)
      → (let next = elim o as (λ _. Option (Option A) × Machine r) [
        | none ↦ (none, m)
        | some _ ↦ (some none, m)
      ] in
          next.0 ≡ some none → suc from ≤ clock.time next.1.world)
  delayed_later from milliseconds none before m positive h waited e =
      absurd (let bad : none ≡ some none = e in cc)
  delayed_later from milliseconds (some _) before m positive h waited e =
      let late = waited refl in omega (arith, positive, h, late)

pub still_before : (deadline t : ℕ) → leb deadline t ≡ false → suc t ≤ deadline
still_before deadline t e = ground (arith, le→leb deadline t)

module _ {r : Rig} {clock : ClockLaws r} where
  -- A loop with more rounds than milliseconds to its deadline ends by its own test.
  pub Timely-before_deadline :
      {A : Type 0} {body : Stage r (Option A)}
      → ((from : ℕ) → Moves r clock from body)
      → (from rounds deadline : ℕ) → 1 ≤ rounds
      → suc deadline ≤ from + rounds
      → Timely r clock from (before_deadline r rounds deadline body)
  unfolding before_deadline
  Timely-before_deadline moves from zero deadline positive enough = absurd (omega (arith, positive))
  Timely-before_deadline {A} {body} moves from (suc rounds) deadline positive enough =
      Timely-now λ t started.
        Timely-if (leb deadline t) (λ over. Timely-done none)
          λ open_yet.
            let early = still_before deadline t open_yet in
            Timely-round (moves t) (
              Timely-before_deadline moves (suc t) rounds deadline
                (omega (arith, enough, early, started)) (omega (arith, enough, started)))

  -- A look at the clock, a loop for some milliseconds from then on, and what comes after it.
  pub Timely-until :
      {A B : Type 0} {body : Stage r (Option A)} {f : Option A → Stage r B}
      → ((from : ℕ) → Moves r clock from body)
      → (from milliseconds : ℕ) → ((from : ℕ) (o : Option A) → Timely r clock from (f o))
      → Timely r clock from
          (now r >>= λ time. before_deadline r (milliseconds + 1) (time + milliseconds) body >>= f)
  Timely-until moves from milliseconds next = Timely-now λ t started.
      Timely-bind
        (Timely-before_deadline moves t (milliseconds + 1) (t + milliseconds) (omega arith)
          (omega arith))
        (next t)

  delay_round-Moves : (from : ℕ) → Moves r clock from (delay_round r)
  delay_round-Moves from =
      Moves-bind Timely-cancel_requested
        λ canceled. Moves-branch canceled (Moves-some tt) (Moves-slept 10 (omega arith))

  pub Timely-delay : (from milliseconds : ℕ) → Timely r clock from (delay r milliseconds)
  unfolding delay
  Timely-delay from milliseconds =
      Timely-until delay_round-Moves from milliseconds
        λ from' o. Timely-on_option o (Timely-done tt) (λ _. Timely-stop)

  after_delay :
      {B : Type 0} (from milliseconds : ℕ) (o : Option (Unit {0})) (before m : Machine r)
      (t : Stage r B)
      → from ≤ clock.time before.world
      → (clock.time before.world ≤ clock.time m.world) × (m.overrun ≡ before.overrun)
      → (o ≡ some tt → clock.time before.world + milliseconds ≤ clock.time m.world)
      → Timely r clock (from + milliseconds) t
      → (let next = elim o as (λ _. Option B × Machine r) [ none ↦ (none, m) | some _ ↦ t m ] in
          (clock.time before.world ≤ clock.time next.1.world) × (next.1.overrun ≡ before.overrun))
  after_delay from milliseconds none before m t h first waited next = first
  after_delay from milliseconds (some _) before m t h (later, same) waited next =
      let late = waited refl in
      let (later', same') = next.at m (omega (arith, h, late)) in
      (omega (arith, later, later'), same' ∙ same)

  -- What follows a delay starts later.
  pub Timely-delayed :
      {B : Type 0} (from milliseconds : ℕ) {t : Stage r B}
      → Timely r clock (from + milliseconds) t
      → Timely r clock from (delay r milliseconds >> t)
  unfolding ◌>>◌ ◌>>=◌
  Timely-delayed from milliseconds {t} next = record {
    at = λ m h.
        after_delay from milliseconds (delay r milliseconds m).0 m (delay r milliseconds m).1 t h
          ((Timely-delay from milliseconds).at m h) (delay-waits r clock milliseconds m) next;
  }

  pub Moves-delay :
      {A : Type 0} (from milliseconds : ℕ)
      → 1 ≤ milliseconds
      → Moves r clock from (delay r milliseconds >> done {A = Option A} none)
  unfolding ◌>>◌ ◌>>=◌ done
  Moves-delay from milliseconds positive = record {
    timely = Timely-seq (Timely-delay from milliseconds) (Timely-done none);
    later = λ m h.
        delayed_later clock from milliseconds (delay r milliseconds m).0 m
          (delay r milliseconds m).1 positive h (delay-waits r clock milliseconds m);
  }
