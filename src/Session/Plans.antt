-- ===== src/Session/Plans.antt =====
-- Starting a session: which plans are taken, and what a start that succeeds leaves.
use factory_test.Common.{
  true, false, ◌||◌, String, str_eq, str_eq_iff, is_empty, List, [], ◌∷◌, map, All, ◌≡◌, ◌↔◌,
  if◌then◌else◌, refl, sym, subst, ap, ◌∙◌, ◌⊎◌, inl, inr, Bool-cases, arith,
}
use factory_test.Host.{Host, FileLaws}
use factory_test.Session.Types.{
  TestDefinition, SessionState, SessionManager, SessionMetadata, is_nil,
}
use factory_test.Session.Manager.{Reply, reply, set_error, active, new_record, persist, abandon}
use factory_test.Session.Start.{contains, is_valid_plan, new_session, open_session, start_new}
use factory_test.Session.Saving.{IsSaved, Saved, persist-Outcome}
use factory_test.Session.Soundness.{RecordOk, IsSound, ids}

abbrev pub plan_ids : List TestDefinition → List String
plan_ids = map (λ t. t.id)

-- Texts that are pairwise different.
abbrev pub AllDifferent : List String → Type 0
AllDifferent [] = Unit
AllDifferent (x ∷ xs) = (contains x xs ≡ false) × AllDifferent xs

abbrev pub IsNamed : TestDefinition → Type 0
IsNamed t = (is_empty t.id ≡ false) × (is_empty t.name ≡ false)

-- No id of the first list is in the second.
abbrev NoneOf : List String → List String → Type 0
NoneOf [] seen = Unit
NoneOf (x ∷ xs) seen = (contains x seen ≡ false) × NoneOf xs seen

contains-none :
    (x y : String) (seen : List String) → contains x (y ∷ seen) ≡ (str_eq y x || contains x seen)
contains-none x y seen = refl

str_eq_comm : (x y : String) → str_eq x y ≡ str_eq y x
str_eq_comm x y = ground (arith, str_eq_iff x y, str_eq_iff y x)

-- Putting an id on the list of those seen asks one thing more.
NoneOf-cons :
    (xs : List String) (y : String) (seen : List String)
    → NoneOf xs (y ∷ seen) ↔ ((contains y xs ≡ false) × NoneOf xs seen)
NoneOf-cons [] y seen = (λ _. (refl, tt), λ _. tt)
NoneOf-cons (x ∷ xs) y seen = (
  λ n. ground (arith, str_eq_comm x y, (NoneOf-cons xs y seen).0 n.1),
  λ n. ground (arith, str_eq_comm x y, (NoneOf-cons xs y seen).1),
)

plan-seen_iff :
    (tests : List TestDefinition) (seen : List String)
    → (is_valid_plan tests seen ≡ true)
      ↔ (All IsNamed tests × AllDifferent (plan_ids tests) × NoneOf (plan_ids tests) seen)
unfolding is_valid_plan
plan-seen_iff [] seen = (λ _. (tt, tt, tt), λ _. refl)
plan-seen_iff (t ∷ tests) seen =
    let rest = plan-seen_iff tests (t.id ∷ seen) in
    let put = NoneOf-cons (plan_ids tests) t.id seen in
    (
      λ e.
          let (named, different, fresh) = rest.0 (ground arith) in
          let (apart, others) = put.0 fresh in
          (((ground arith, ground arith), named), (apart, different), (ground arith, others)),
      λ (named, different, fresh).
          let valid = rest.1 (named.1, different.1, put.1 (different.0, fresh.1)) in
          ground (arith, valid),
    )

NoneOf-nil : (xs : List String) → NoneOf xs []
NoneOf-nil [] = tt
NoneOf-nil (x ∷ xs) = (refl, NoneOf-nil xs)

-- The check of a plan's ids and names, which the empty plan passes too, succeeds exactly when every
-- id and name is there and no id stands twice.
pub is_valid_plan_iff :
    (tests : List TestDefinition)
    → (is_valid_plan tests [] ≡ true) ↔ (All IsNamed tests × AllDifferent (plan_ids tests))
is_valid_plan_iff tests =
    let iff = plan-seen_iff tests [] in
    (
      λ e. (let (named, different, _) = iff.0 e in (named, different)),
      λ (named, different). iff.1 (named, different, NoneOf-nil (plan_ids tests)),
    )

new_records-ok :
    (D : Type 0) (tests : List TestDefinition) → All (RecordOk {D = D}) (map new_record tests)
new_records-ok D [] = tt
new_records-ok D (t ∷ tests) =
    ((λ e. (refl, refl), λ e. (refl, refl, refl)), new_records-ok D tests)

ids-new_record :
    (D : Type 0) (tests : List TestDefinition) → ids {D = D} (map new_record tests) ≡ plan_ids tests
ids-new_record D [] = refl
ids-new_record D (t ∷ tests) = ap (◌∷◌ t.id) (ids-new_record D tests)

module _ (h : Host) (laws : FileLaws h) where
  open h use {World, Double}

  -- What a session is that has just been started for a plan.
  pub record IsStarted (tests : List TestDefinition) (r : Reply h) : Type 0 where
    pub under_way : r.session.state ≡ SessionState.in_progress
    pub planned : r.session.tests ≡ map new_record tests
    pub sound : IsSound r.session
    pub same_ids : ids r.session.tests ≡ plan_ids tests
    pub saved : IsSaved h r.session r.world

  Saved-IsStarted :
      (tests : List TestDefinition) (metadata : SessionMetadata) (moment : h.Moment) (r : Reply h)
      → Saved h (new_session h tests metadata moment) r
      → IsStarted tests r
  Saved-IsStarted tests metadata moment r o = record {
    under_way = ap (λ s. s.state) o.session;
    planned = ap (λ s. s.tests) o.session;
    sound =
        subst IsSound (sym o.session)
          (record { records = new_records-ok Double tests; done = λ e. cc; current = inl refl });
    same_ids = ap (λ s. ids s.tests) o.session ∙ ids-new_record Double tests;
    saved = o.saved;
  }

  open_session-IsStarted :
      (tests : List TestDefinition) (metadata : SessionMetadata) (w : World)
      → (open_session h tests metadata w).success ≡ true
      → IsStarted tests (open_session h tests metadata w)
  unfolding open_session
  open_session-IsStarted tests metadata w success =
      elim (persist-Outcome h laws (new_session h tests metadata (h.now w).0) (h.now w).1) [
        | inl o ↦ simp o.succeeded (
            Saved-IsStarted tests metadata (h.now w).0
              (persist h (new_session h tests metadata (h.now w).0) (h.now w).1) o)
        | inr o ↦ absurd (let bad : false ≡ true = simp o.failed at success in cc)
      ]

  -- A plan that may be started: it has a test, every id and name is there and no id stands twice.
  abbrev pub IsPlan : List TestDefinition → Type 0
  IsPlan tests = (is_nil tests ≡ false) × All IsNamed tests × AllDifferent (plan_ids tests)

  -- The session that is under way is abandoned, and with that the new one is opened.
  abbrev pub replace_session :
      SessionManager Double → List TestDefinition → SessionMetadata → World → Reply h
  replace_session m tests metadata w =
      if active m
      then (let r = abandon h (set_error m "") w in
          if r.success then open_session h tests metadata r.world else r)
      else open_session h tests metadata w

  -- A plan is tried exactly when it has a test, no id or name is missing and no id stands twice: then
  -- the active session is abandoned and the new one opened. Any other plan is refused, with an
  -- error, and neither the rest of the session nor the world is touched.
  pub start_new-IsPlan :
      (m : SessionManager Double) (tests : List TestDefinition) (metadata : SessionMetadata)
      (w : World)
      → (IsPlan tests × (start_new h m tests metadata w ≡ replace_session m tests metadata w))
        ⊎ ((¬ IsPlan tests)
            × (error : String) × (start_new h m tests metadata w
                ≡ reply h false (set_error m error) w))
  unfolding start_new
  start_new-IsPlan m tests metadata w = elim (Bool-cases (is_nil tests)) [
    | inl empty ↦ inr (
      λ (taken, _, _). absurd (let bad : true ≡ false = sym empty ∙ taken in cc),
      "test plan is empty",
      simp empty,
    )
    | inr some_test ↦ elim (Bool-cases (is_valid_plan tests [])) [
      | inl valid ↦
          let (named, different) = (is_valid_plan_iff tests).0 valid in
          inl ((some_test, named, different), simp (some_test, valid))
      | inr bad_plan ↦ inr (
        λ (_, named, different). absurd (
            let valid = (is_valid_plan_iff tests).1 (named, different) in
            let bad : true ≡ false = sym valid ∙ bad_plan in cc),
        "test plan contains an invalid or duplicate id",
        simp (some_test, bad_plan),
      )
    ]
  ]

  -- With FileLaws a start that succeeds had a plan with no id or name missing and no id twice. It leaves a sound
  -- session in progress, saved in its file, with the tests of the plan in their order and none of them
  -- attempted or completed.
  pub start_new-IsStarted :
      (m : SessionManager Double) (tests : List TestDefinition) (metadata : SessionMetadata)
      (w : World)
      → (start_new h m tests metadata w).success ≡ true
      → All IsNamed tests
        × AllDifferent (plan_ids tests)
        × IsStarted tests (start_new h m tests metadata w)
  unfolding start_new
  start_new-IsStarted m tests metadata w success = elim (Bool-cases (is_nil tests)) [
    | inl empty ↦ absurd (let bad : false ≡ true = simp empty at success in cc)
    | inr some_test ↦ elim (Bool-cases (is_valid_plan tests [])) [
      | inr bad_plan ↦ absurd (let bad : false ≡ true = simp (some_test, bad_plan) at success in cc)
      | inl valid ↦
          let (named, different) = (is_valid_plan_iff tests).0 valid in
          (named, different, started some_test valid)
    ]
  ]
    where
      after_abandon :
          (r : Reply h)
          → (let s = if r.success then open_session h tests metadata r.world else r in
              s.success ≡ true → IsStarted tests s)
      after_abandon r done = elim (Bool-cases r.success) [
        | inl e ↦ simp e (open_session-IsStarted tests metadata r.world (simp e at done))
        | inr e ↦ absurd (let bad : false ≡ true = simp e at done in cc)
      ]

      started :
          is_nil tests ≡ false
          → is_valid_plan tests [] ≡ true
          → IsStarted tests (start_new h m tests metadata w)
      started some_test valid = elim (Bool-cases (active m)) [
        | inl a ↦
            simp (some_test, valid, a)
              (after_abandon (abandon h (set_error m "") w) (simp (some_test, valid, a) at success))
        | inr a ↦
            simp (some_test, valid, a)
              (open_session-IsStarted tests metadata w (simp (some_test, valid, a) at success))
      ]
