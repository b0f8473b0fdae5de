-- ===== src/CapFixture/Outcomes.antt =====
-- src/model/cap_fixture_test_model.cpp: how steps end. A rule for each way in which a stage is made.
use factory_test.Common.{
  ◌≡◌, refl, Bool, true, false, ℕ, zero, suc, String, Option, none, some, leb,
}
use factory_test.Files.{Result, ok, err, Action}
use factory_test.CapFixture.Types.{CapFixtureTestModel, Rig}
use factory_test.CapFixture.Stage.{
  Machine, Stage, ◌>>=◌, ◌>>◌, done, stop, branch, on_option, on_result, failure, change_model,
  the_model, fail, hardware, or_fail, call_or_fail, cancel_requested, now, sleep, before_deadline,
  overran,
}

abbrev pub Condition : Type 1
Condition = CapFixtureTestModel → Type 0

-- A condition on the model after a step: `Q` if the step gave a result and `E` if it did not.
unfoldable pub After : {A : Type 0} → Condition → Condition → Option A → Condition
After Q E none m = E m
After Q E (some _) m = Q m

-- From a model with `P` the step ends with a result and `Q`, or without one and `E`.
pub record Ends (r : Rig) {A : Type 0} (P Q E : Condition) (step : Stage r A) : Type 0 where
  pub at : (m : Machine r) → P m.model → After Q E (step m).0 (step m).1.model

-- The run was canceled.
pub record Canceled (r : Rig) : Type 0 where
  pub seen_in : r.World
  pub at_seen : (r.is_canceled seen_in).0 ≡ true

-- A stage that is canceled or fails turns `P` into `E`, and a second failure keeps `E`.
pub record Failing (r : Rig) (P E : Condition) : Type 0 where
  pub at_stop : Canceled r → (m : CapFixtureTestModel) → P m → E m
  pub at_fail :
      (stage message : String) (m : CapFixtureTestModel)
      → P m
      → E (record m { snapshot = failure stage message m.active_item m.snapshot })
  pub at_second :
      (stage message : String) (m : CapFixtureTestModel)
      → E m
      → E (record m { snapshot = failure stage message m.active_item m.snapshot })

After-next :
    {r : Rig} {E : Condition} {A B : Type 0} {Q R : Condition} (o : Option A) (m : Machine r)
    (f : A → Stage r B)
    → After R E o m.model
    → ((a : A) → Ends r R Q E (f a))
    → (let next = elim o as (λ _. Option B × Machine r) [ none ↦ (none, m) | some a ↦ f a m ] in
        After Q E next.0 next.1.model)
unfolding After
After-next none m f h next = h
After-next (some a) m f h next = (next a).at m h

module _ {r : Rig} {P E : Condition} where
  pub Ends-done : {A : Type 0} (a : A) → Ends r P P E (done a)
  unfolding done After
  Ends-done a = record { at = λ m h. h }

  pub Ends-the_model : Ends r P P E (the_model r)
  unfolding the_model After
  Ends-the_model = record { at = λ m h. h }

  pub Ends-hardware : {A : Type 0} (call : Action r.World A) → Ends r P P E (hardware r call)
  unfolding hardware After
  Ends-hardware call = record { at = λ m h. h }

  pub Ends-cancel_requested : Ends r P P E (cancel_requested r)
  unfolding cancel_requested After
  Ends-cancel_requested = record { at = λ m h. h }

  pub Ends-now : Ends r P P E (now r)
  unfolding now After
  Ends-now = record { at = λ m h. h }

  pub Ends-overran : Ends r P P E (overran r)
  unfolding overran After
  Ends-overran = record { at = λ m h. h }

  pub Ends-sleep : (milliseconds : ℕ) → Ends r P P E (sleep r milliseconds)
  unfolding sleep After
  Ends-sleep milliseconds = record { at = λ m h. h }

  pub Ends-change_model :
      {Q : Condition} (f : CapFixtureTestModel → CapFixtureTestModel)
      → ((m : CapFixtureTestModel) → P m → Q (f m))
      → Ends r P Q E (change_model r f)
  unfolding change_model After
  Ends-change_model f kept = record { at = λ m h. kept m.model h }

  pub Ends-stop :
      {A : Type 0} {Q : Condition}
      → ((m : CapFixtureTestModel) → P m → E m)
      → Ends r P Q E (stop {A = A})
  unfolding stop After
  Ends-stop stopped = record { at = λ m h. stopped m.model h }

  pub Ends-fail :
      {A : Type 0} {Q : Condition} (stage message : String)
      → Failing r P E
      → Ends r P Q E (fail r {A = A} stage message)
  unfolding fail After
  Ends-fail stage message failing = record { at = λ m h. failing.at_fail stage message m.model h }

  pub Ends-branch :
      {A : Type 0} {Q : Condition} (b : Bool) {s t : Stage r A}
      → Ends r P Q E s
      → Ends r P Q E t
      → Ends r P Q E (branch b s t)
  unfolding branch
  Ends-branch true s t = s
  Ends-branch false s t = t

  pub Ends-on_option :
      {A B : Type 0} {Q : Condition} (o : Option A) {s : Stage r B} {f : A → Stage r B}
      → Ends r P Q E s
      → ((a : A) → Ends r P Q E (f a))
      → Ends r P Q E (on_option o s f)
  unfolding on_option
  Ends-on_option none s f = s
  Ends-on_option (some a) s f = f a

  pub Ends-on_result :
      {A B : Type 0} {Q : Condition} (o : Result A) {s : String → Stage r B} {f : A → Stage r B}
      → ((message : String) → Ends r P Q E (s message))
      → ((a : A) → Ends r P Q E (f a))
      → Ends r P Q E (on_result o s f)
  unfolding on_result
  Ends-on_result (err message) s f = s message
  Ends-on_result (ok a) s f = f a

  -- One step after another, with the condition between them.
  pub Ends-then :
      {A B : Type 0} {Q R : Condition} {s : Stage r A} {f : A → Stage r B}
      → Ends r P R E s
      → ((a : A) → Ends r R Q E (f a))
      → Ends r P Q E (s >>= f)
  unfolding ◌>>=◌
  Ends-then {s} {f} first next = record {
    at = λ m h. After-next (s m).0 (s m).1 f (first.at m h) next;
  }

  -- A first step that keeps the condition.
  pub Ends-bind :
      {A B : Type 0} {Q : Condition} {s : Stage r A} {f : A → Stage r B}
      → Ends r P P E s
      → ((a : A) → Ends r P Q E (f a))
      → Ends r P Q E (s >>= f)
  Ends-bind first next = Ends-then first next

  pub Ends-seq :
      {B : Type 0} {Q : Condition} {s : Stage r (Unit {0})} {t : Stage r B}
      → Ends r P P E s
      → Ends r P Q E t
      → Ends r P Q E (s >> t)
  unfolding ◌>>◌
  Ends-seq first next = Ends-then first (λ _. next)

  pub Ends-next :
      {B : Type 0} {Q R : Condition} {s : Stage r (Unit {0})} {t : Stage r B}
      → Ends r P R E s
      → Ends r R Q E t
      → Ends r P Q E (s >> t)
  unfolding ◌>>◌
  Ends-next first next = Ends-then first (λ _. next)

  After-value :
      {A B : Type 0} {Q : Condition} (o : Option A) (m : Machine r) (f : A → Stage r B)
      → After P E o m.model
      → ((a : A) → o ≡ some a → Ends r P Q E (f a))
      → (let next = elim o as (λ _. Option B × Machine r) [ none ↦ (none, m) | some a ↦ f a m ] in
          After Q E next.0 next.1.model)
  unfolding After
  After-value none m f h next = h
  After-value (some a) m f h next = (next a refl).at m h

  -- What follows may use that the first step gave its value.
  pub Ends-value :
      {A B : Type 0} {Q : Condition} {s : Stage r A} {f : A → Stage r B}
      → Ends r P P E s
      → ((a : A) (m : Machine r) → (s m).0 ≡ some a → Ends r P Q E (f a))
      → Ends r P Q E (s >>= f)
  unfolding ◌>>=◌
  Ends-value {s} {f} first next = record {
    at = λ m h. After-value (s m).0 (s m).1 f (first.at m h) (λ a e. next a m e);
  }

  if_canceled :
      {A : Type 0} {Q : Condition} (b : Bool) {s t : Stage r A}
      → (b ≡ true → Ends r P Q E s)
      → Ends r P Q E t
      → Ends r P Q E (branch b s t)
  unfolding branch
  if_canceled true s t = s refl
  if_canceled false s t = t

  -- A step that depends on the flag may use that the run is canceled.
  pub Ends-canceled :
      {A : Type 0} {Q : Condition} {s t : Stage r A}
      → (Canceled r → Ends r P Q E s)
      → Ends r P Q E t
      → Ends r P Q E (cancel_requested r >>= λ canceled. branch canceled s t)
  unfolding ◌>>=◌ cancel_requested
  Ends-canceled stops goes_on = record {
    at = λ m h.
        (if_canceled (r.is_canceled m.world).0
            (λ e. stops (record { seen_in = m.world; at_seen = e })) goes_on).at
          (record m { world = (r.is_canceled m.world).1 }) h;
  }

  pub Ends-or_fail :
      {A : Type 0} (stage message : String) (result : Result A)
      → Failing r P E
      → Ends r P P E (or_fail r stage message result)
  unfolding or_fail
  Ends-or_fail stage message result failing =
      Ends-on_result result (λ error. Ends-fail stage _ failing) (λ a. Ends-done a)

  pub Ends-call_or_fail :
      {A : Type 0} (stage message : String) (call : Action r.World A)
      → Failing r P E
      → Ends r P P E (call_or_fail r stage message call)
  unfolding call_or_fail
  Ends-call_or_fail stage message call failing =
      Ends-bind (Ends-hardware call) (λ result. Ends-or_fail stage message result failing)

  pub Ends-before_deadline :
      {A : Type 0} (rounds deadline : ℕ) {body : Stage r (Option A)}
      → Ends r P P E body
      → Ends r P P E (before_deadline r rounds deadline body)
  unfolding before_deadline
  Ends-before_deadline zero deadline body = Ends-seq Ends-overran (Ends-done none)
  Ends-before_deadline (suc rounds) deadline body = Ends-bind Ends-now (λ time.
      Ends-branch (leb deadline time) (Ends-done none) (
        Ends-bind body (λ o.
          Ends-on_option o (Ends-before_deadline rounds deadline body) (λ a. Ends-done (some a)))))

pub ruleset ends_rules = (
  Ends-done, Ends-the_model, Ends-hardware, Ends-cancel_requested, Ends-now, Ends-sleep,
  Ends-change_model, Ends-stop, Ends-fail, Ends-branch, Ends-on_option, Ends-on_result, Ends-bind,
  Ends-seq, Ends-or_fail, Ends-call_or_fail, Ends-before_deadline, Ends-overran,
)
