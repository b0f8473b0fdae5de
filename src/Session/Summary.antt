-- ===== src/Session/Summary.antt =====
-- What the summary counts, and when a session has passed.
use factory_test.Common.{
  Bool, true, not, ◌&&◌, ℕ, suc, ◌+◌, ◌≤◌, List, [], ◌∷◌, length, All, if◌then◌else◌, ◌≡◌, refl,
  ◌∙◌, ◌↔◌, arith,
}
use factory_test.Session.Types.{
  pass, TestRecord, SessionSummary, SessionManager, is_pass, has_evidence,
}
use factory_test.Session.Document.{count_test, count_tests, summary, session_passed}
use factory_test.Session.Manager.{next_incomplete, next_incomplete_index}

module _ {ℓ} {A : Type ℓ} where
  -- How many elements pass a test.
  abbrev pub count_if : (A → Bool) → List A → ℕ
  count_if p [] = 0
  count_if p (x ∷ xs) = if p x then suc (count_if p xs) else count_if p xs

module _ {D : Type 0} where
  abbrev pub is_done : TestRecord D → Bool
  is_done t = t.completed

  abbrev pub is_passed : TestRecord D → Bool
  is_passed t = t.completed && is_pass t.result

  abbrev pub is_failed : TestRecord D → Bool
  is_failed t = t.completed && not (is_pass t.result)

  abbrev pub lacks_evidence : TestRecord D → Bool
  lacks_evidence t = t.completed && not (has_evidence t)

  count_tests-counts :
      (tests : List (TestRecord D)) (s : SessionSummary)
      → count_tests tests s ≡ record s {
        completed = s.completed + count_if is_done tests;
        passed = s.passed + count_if is_passed tests;
        failed = s.failed + count_if is_failed tests;
        missing_evidence = s.missing_evidence + count_if lacks_evidence tests;
      }
  unfolding count_tests
  count_tests-counts [] s = ground arith
  count_tests-counts (t ∷ tests) s = count_tests-counts tests (count_test t s) ∙ ground arith

  -- The summary counts the tests: those completed, and of these the passed, the failed and those
  -- without evidence.
  pub summary-counts :
      (m : SessionManager D)
      → summary m ≡ record {
        state = m.state;
        total = length m.tests;
        completed = count_if is_done m.tests;
        passed = count_if is_passed m.tests;
        failed = count_if is_failed m.tests;
        missing_evidence = count_if lacks_evidence m.tests;
      }
  unfolding summary
  summary-counts m = count_tests-counts m.tests _ ∙ ground arith

  is_done-split :
      (tests : List (TestRecord D))
      → count_if is_done tests ≡ count_if is_passed tests + count_if is_failed tests
  is_done-split [] = omega arith
  is_done-split (t ∷ tests) = ground (arith, is_done-split tests)

  is_done-le : (tests : List (TestRecord D)) → count_if is_done tests ≤ length tests
  is_done-le [] = omega arith
  is_done-le (t ∷ tests) = ground (arith, is_done-le tests)

  lacks_evidence-le :
      (tests : List (TestRecord D)) → count_if lacks_evidence tests ≤ count_if is_done tests
  lacks_evidence-le [] = omega arith
  lacks_evidence-le (t ∷ tests) = ground (arith, lacks_evidence-le tests)

  next_incomplete-le : (tests : List (TestRecord D)) → next_incomplete tests ≤ length tests
  unfolding next_incomplete
  next_incomplete-le [] = omega arith
  next_incomplete-le (t ∷ tests) = ground (arith, next_incomplete-le tests)

  next_incomplete-all :
      (tests : List (TestRecord D))
      → (next_incomplete tests ≡ length tests) ↔ (count_if is_done tests ≡ length tests)
  unfolding next_incomplete
  next_incomplete-all [] = (λ e. refl, λ e. refl)
  next_incomplete-all (t ∷ tests) = (
    λ e. ground (arith, (next_incomplete-all tests).0),
    λ e. ground (arith, (next_incomplete-all tests).1, is_done-le tests),
  )

  -- In a summary the passed and the failed add up to the completed, which are at most all tests, and
  -- those without evidence are among them; all tests are completed exactly when the index of the next
  -- incomplete one is past the end.
  pub summary_bounds :
      (m : SessionManager D)
      → let s = summary m in
        (s.passed + s.failed ≡ s.completed)
        × (s.completed ≤ s.total)
        × (s.missing_evidence ≤ s.completed)
        × ((next_incomplete_index m ≡ s.total) ↔ (s.completed ≡ s.total))
  summary_bounds m = rw (summary-counts m) (
    omega (arith, is_done-split m.tests),
    is_done-le m.tests,
    lacks_evidence-le m.tests,
    next_incomplete-all m.tests,
  )

  -- Every test is completed with the result PASS.
  abbrev pub AllPassed : List (TestRecord D) → Type 0
  AllPassed = All (λ t. (t.completed ≡ true) × (t.result ≡ pass))

  AllPassed-iff :
      (tests : List (TestRecord D))
      → ((count_if is_done tests ≡ length tests) × (count_if is_failed tests ≡ 0)) ↔ AllPassed tests
  AllPassed-iff [] = (λ e. tt, λ e. (refl, refl))
  AllPassed-iff (t ∷ tests) = (
    λ e. ground (arith, (AllPassed-iff tests).0, is_done-le tests),
    λ e. ground (arith, (AllPassed-iff tests).1 e.1),
  )

  -- The status that the result documents report is PASS exactly when every test is completed and
  -- passed.
  pub session_passed_iff : (m : SessionManager D) → (session_passed m ≡ true) ↔ AllPassed m.tests
  unfolding session_passed
  session_passed_iff m =
      let counts = summary-counts m in
      let iff = AllPassed-iff m.tests in
      (λ e. iff.0 (ground (arith, counts)), λ e. ground (arith, counts, iff.1 e))
