-- ===== src/CapFixture/Moved.antt =====
-- src/model/cap_fixture_test_model.cpp: how the steps that several stages share end.
use factory_test.Common.{
  ◌≡◌, refl, ap, ◌∙◌, Bool, true, false, ℕ, zero, suc, leb, String, List, Option, none, some,
}
use factory_test.CapFixture.Types.{CapFixtureTestModel, Rig}
use factory_test.CapFixture.Stage.{
  Machine, Stage, overran, ◌>>=◌, ◌>>◌, branch, cancel_requested, now, sleep, before_deadline,
  on_option, fail, done, stop, call_or_fail,
}
use factory_test.CapFixture.Steps.{
  delay, delay_round, hold_round, write_reg, read_reg, expect, otherwise, wait_for_idle,
  hold_gpio_outputs_high, select_host_pin_function,
}
use factory_test.CapFixture.Constants.{gpio_hold_refresh_ms}
use factory_test.CapFixture.Outcomes.{
  Condition, After, Ends, Failing, Canceled, Ends-bind, Ends-now, Ends-value, Ends-stop, Ends-done,
  Ends-canceled, ends_rules,
}

-- A loop that is left with a value is left by its body.
module _ {r : Rig} {A : Type 0} (body : Stage r (Option A)) {a : A} {Because : Type 0}
    (because : (m : Machine r) → (body m).0 ≡ some (some a) → Because) where
  left_body :
      (o : Option (Option A)) (m : Machine r) (rest : Stage r (Option A))
      → (o ≡ some (some a) → Because)
      → ((rest m).0 ≡ some (some a) → Because)
      → (let next = elim o as (λ _. Option (Option A) × Machine r) [
        | none ↦ (none, m)
        | some o' ↦ on_option o' rest (λ a. done (some a)) m
      ] in
          next.0 ≡ some (some a) → Because)
  unfolding on_option done
  left_body none m rest at_body at_rest h = absurd (let bad : none ≡ some (some a) = h in cc)
  left_body (some none) m rest at_body at_rest h = at_rest h
  left_body (some (some b)) m rest at_body at_rest h = at_body h

  left_round :
      (b : Bool) (m : Machine r) (rest : Stage r (Option A))
      → ((m : Machine r) → (rest m).0 ≡ some (some a) → Because)
      → (branch b (done none) (body >>= λ o. on_option o rest (λ a. done (some a))) m).0
        ≡ some (some a)
      → Because
  unfolding branch done ◌>>=◌
  left_round true m rest at_rest h = absurd (let bad : some none ≡ some (some a) = h in cc)
  left_round false m rest at_rest h =
      left_body (body m).0 (body m).1 rest (because m) (at_rest (body m).1) h

  left_early :
      (rounds deadline : ℕ) (m : Machine r)
      → (before_deadline r rounds deadline body m).0 ≡ some (some a)
      → Because
  unfolding before_deadline ◌>>=◌ ◌>>◌ overran now done
  left_early zero deadline m h = absurd (let bad : some none ≡ some (some a) = h in cc)
  left_early (suc rounds) deadline m h =
      left_round (leb deadline (r.now m.world).0) _ (before_deadline r rounds deadline body)
        (left_early rounds deadline) h

module _ {r : Rig} where
  at_flag :
      (b : Bool) (m : Machine r) (rest : Stage r (Option (Unit {0})))
      → (b ≡ true → Canceled r)
      → (¬ ((rest m).0 ≡ some (some tt)))
      → (branch b (done (some tt)) rest m).0 ≡ some (some tt)
      → Canceled r
  unfolding branch
  at_flag true m rest seen never h = seen refl
  at_flag false m rest seen never h = absurd (never h)

  held :
      (o : Option (Unit {0})) (m after : Machine r)
      → ¬ (
          (elim o as (λ _. Option (Option (Unit {0})) × Machine r) [
            | none ↦ (none, m)
            | some _ ↦ (some none, after)
          ]).0
          ≡ some (some tt))
  held none m after bad = absurd (let e : none ≡ some (some tt) = bad in cc)
  held (some _) m after bad = absurd (let e : some none ≡ some (some tt) = bad in cc)

  goes_on :
      (s : Stage r (Unit {0})) (n : ℕ) (m : Machine r)
      → ¬ (((s >> (sleep r n >> done none)) m).0 ≡ some (some tt))
  unfolding ◌>>=◌ ◌>>◌ sleep done
  goes_on s n m = held (s m).0 (s m).1 (record (s m).1 { world = r.sleep n (s m).1.world })

  delay_round-Canceled : (m : Machine r) → (delay_round r m).0 ≡ some (some tt) → Canceled r
  unfolding ◌>>=◌ cancel_requested ◌>>◌ sleep done
  delay_round-Canceled m h =
      at_flag (r.is_canceled m.world).0 _ _ (λ e. record { seen_in = m.world; at_seen = e })
        (λ bad. absurd (let e : some none ≡ some (some tt) = bad in cc)) h

  hold_round-Canceled :
      (stage : String) (m : Machine r) → (hold_round r stage m).0 ≡ some (some tt) → Canceled r
  unfolding ◌>>=◌ cancel_requested
  hold_round-Canceled stage m h =
      at_flag (r.is_canceled m.world).0 _ _ (λ e. record { seen_in = m.world; at_seen = e })
        (goes_on (call_or_fail r stage "GPIO HIGH hold failed: " (r.set_gpio_test_outputs true))
          gpio_hold_refresh_ms _)
        h

-- After a loop that only a canceled run leaves with a value.
module _ {r : Rig} {P E : Condition}
    (stopped : Canceled r → (m : CapFixtureTestModel) → P m → E m) where
  Ends-left :
      (o : Option (Unit {0})) {s : Stage r (Unit {0})}
      → (o ≡ some tt → Canceled r)
      → Ends r P P E s
      → Ends r P P E (on_option o s (λ _. stop))
  unfolding on_option
  Ends-left none left s = s
  Ends-left (some _) left s = Ends-stop (stopped (left refl))

  pub Ends-delay : (milliseconds : ℕ) → Ends r P P E (delay r milliseconds)
  unfolding delay
  Ends-delay milliseconds = Ends-bind Ends-now λ time.
      Ends-value (search ends_rules depth 20) λ o m h.
        Ends-left o (λ e. left_early (delay_round r) delay_round-Canceled _ _ m (h ∙ ap some e))
          (Ends-done tt)

pub Ends-select_host_pin_function :
    {r : Rig} {P E : Condition} (usb_enabled : Bool)
    → ((b : Bool) (m : CapFixtureTestModel)
        → P m
        → P (record m { host_pin_function_known = true; host_usb_function_selected = b }))
    → Ends r P P E (select_host_pin_function r usb_enabled)
unfolding select_host_pin_function
Ends-select_host_pin_function usb_enabled kept = search (ends_rules, kept usb_enabled) depth 40

module _ {r : Rig} {P E : Condition} (failing : Failing r P E) where
  pub Ends-write_reg :
      (stage : String) (reg : ℕ) (bytes : List ℕ) → Ends r P P E (write_reg r stage reg bytes)
  unfolding write_reg
  Ends-write_reg stage reg bytes =
      search (Ends-canceled, ends_rules, failing, failing.at_stop) depth 40

  pub Ends-read_reg : (stage : String) (reg size : ℕ) → Ends r P P E (read_reg r stage reg size)
  unfolding read_reg
  Ends-read_reg stage reg size =
      search (Ends-canceled, ends_rules, failing, failing.at_stop) depth 40

  pub Ends-expect :
      (stage : String) (test : Bool) (message : String) → Ends r P P E (expect r stage test message)
  unfolding expect
  Ends-expect stage test message = search (ends_rules, failing) depth 40

  pub Ends-wait_for_idle :
      (stage : String) (timeout : ℕ) (message : String)
      → Ends r P P E (wait_for_idle r stage timeout message)
  unfolding wait_for_idle
  Ends-wait_for_idle stage timeout message =
      search (ends_rules, Ends-read_reg, Ends-delay, failing, failing.at_stop) depth 40

  pub Ends-hold_gpio_outputs_high :
      (stage : String) (milliseconds : ℕ)
      → Ends r P P E (hold_gpio_outputs_high r stage milliseconds)
  unfolding hold_gpio_outputs_high
  Ends-hold_gpio_outputs_high stage milliseconds = Ends-bind Ends-now λ time.
      Ends-value (search (ends_rules, failing) depth 40) λ o m h.
        Ends-left failing.at_stop o
          (λ e. left_early (hold_round r stage) (hold_round-Canceled stage) _ _ m (h ∙ ap some e))
          (search (ends_rules, failing))

  After-otherwise :
      {A : Type 0} (stage message : String) (o : Option A) (m : Machine r)
      → After P E o m.model
      → (let next = on_option o (fail r stage message) done m in After P E next.0 next.1.model)
  unfolding After on_option fail done
  After-otherwise stage message none m h = failing.at_second stage message m.model h
  After-otherwise stage message (some a) m h = h

  pub Ends-otherwise :
      {A : Type 0} {s : Stage r A} (stage message : String)
      → Ends r P P E s
      → Ends r P P E (otherwise r s stage message)
  unfolding otherwise
  Ends-otherwise {s} stage message ends = record {
    at = λ m h. After-otherwise stage message (s m).0 (s m).1 (ends.at m h);
  }
