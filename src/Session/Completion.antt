-- ===== src/Session/Completion.antt =====
-- complete_test on each of its branches: the test is saved as completed, and the last one ends the
-- sequence.
use factory_test.Common.{
  true, false, String, List, length, leb, ◌≤◌, some, ◌≡◌, refl, sym, subst, ap, ◌∙◌, inl, inr,
  Bool-cases, leb→le, le→leb, arith,
}
use factory_test.Host.{Host, FileLaws}
use factory_test.Session.Types.{SessionManager, TestRecord, TestResult, NamedTestResult}
use factory_test.Session.Manager.{
  Reply, set_error, active, active_test, update_test, next_incomplete_index,
}
use factory_test.Session.Progress.{
  test_completed, finalize, save_completion, finalize_if_done, complete_test,
}
use factory_test.Session.Saving.{IsSaved, Saved}
use factory_test.Session.Effects.{
  update_test-undo, active_test-some, with_tests, Undone, Effect, or_restore-Effect,
}
use factory_test.Session.Endings.{
  SessionApart, Finalized, Refused, EndOrRefused, finalize-EndOrRefused,
}

module _ (h : Host) where
  open h use {World, Double}

  -- The session with a test completed at a time.
  abbrev pub with_completed :
      SessionManager Double
      → String
      → TestResult
      → List NamedTestResult
      → String
      → SessionManager Double
  with_completed m test_id result details time = record m {
    tests = update_test test_id (test_completed time result details) m.tests;
    updated_at = time;
  }

  -- What is left to do once the test has been saved as completed.
  abbrev pub AllDone : SessionManager Double → Type 0
  AllDone m = length m.tests ≤ next_incomplete_index m

  -- The session was saved with every test completed, and finalize then refused.
  pub record Refusal (m₁ : SessionManager Double) (r : Reply h) : Type 0 where
    pub saved : Reply h
    pub done : Saved h m₁ saved
    pub all_done : AllDone saved.session
    pub refused : Refused h saved.session saved.world r

  -- A failure that leaves the session with every test completed, and its file with the document of
  -- the session as it was saved.
  pub record StaysSaved (m₁ : SessionManager Double) (r : Reply h) : Type 0 where
    pub error : String
    pub time : String
    pub failed : r.success ≡ false
    pub session : r.session ≡ record m₁ { last_error = error; updated_at = time }
    pub all_done : AllDone r.session
    pub saved : IsSaved h (record m₁ { last_error = ""; updated_at = time }) r.world

  -- How completing a test ends, for an account of what a refused finalize leaves.
  pub data CompletionBy (Refusing : SessionManager Double → Reply h → Type 0)
      (m m₁ : SessionManager Double) (before : World) (r : Reply h) : Type 0 where
    undone : Undone h m before r → CompletionBy Refusing m m₁ before r
    going_on : Saved h m₁ r → ¬ AllDone r.session → CompletionBy Refusing m m₁ before r
    ended :
        (s : Reply h)
        → Saved h m₁ s
        → AllDone s.session
        → Finalized h s.session r
        → CompletionBy Refusing m m₁ before r
    not_finalized : Refusing m₁ r → CompletionBy Refusing m m₁ before r

  abbrev pub Completion : SessionManager Double → SessionManager Double → World → Reply h → Type 0
  Completion = CompletionBy StaysSaved

  Refusal-StaysSaved :
      (m₁ : SessionManager Double) (r : Reply h) → SessionApart m₁ → Refusal m₁ r → StaysSaved m₁ r
  Refusal-StaysSaved m₁ r apart o =
      let (text, document, holds) = o.done.saved in
      let kept = o.refused.kept (subst SessionApart (sym o.done.session) apart) in
      record {
        error = o.refused.error;
        time = o.done.time;
        failed = o.refused.failed;
        session = o.refused.session ∙ ap (λ s. set_error s o.refused.error) o.done.session;
        all_done = subst AllDone (sym o.refused.session) o.all_done;
        saved = subst (λ s. IsSaved h s r.world) o.done.session (text, document, kept ∙ holds);
      }

module _ (h : Host) (laws : FileLaws h) where
  open h use {World, Double}

  save_completion-Effect :
      (m : SessionManager Double) (test_id : String) (result : TestResult)
      (details : List NamedTestResult) (w : World) {test : TestRecord Double}
      → active_test m test_id ≡ some test
      → Effect h m
          (with_completed h m test_id result details (h.iso_timestamp (h.now w).0))
          w
          (save_completion h m test_id test result details w)
  unfolding save_completion
  save_completion-Effect m test_id result details w {test} found =
      let (_, here) = active_test-some m test_id found in
      or_restore-Effect h laws m _ _ w (h.now w).1
        (λ error time.
          ap (with_tests m error) (update_test-undo test_id _ m.tests here (λ t. refl)))
        refl (laws.now_contents w m.session_path)

  ended_by :
      {m m₁ : SessionManager Double} {before : World} (s r : Reply h)
      → Saved h m₁ s
      → AllDone h s.session
      → EndOrRefused h s.session s.world r
      → CompletionBy h (Refusal h) m m₁ before r
  ended_by s r o all (inl e) = ended s o all e
  ended_by s r o all (inr e) =
      not_finalized (record { saved = s; done = o; all_done = all; refused = e })

  finalize_if_done-Completion :
      (m m₁ : SessionManager Double) (before : World) (r : Reply h)
      → active m₁ ≡ true
      → Effect h m m₁ before r
      → CompletionBy h (Refusal h) m m₁ before (finalize_if_done h r)
  finalize_if_done-Completion m m₁ before r a (inr o) = simp o.failed (undone o)
  finalize_if_done-Completion m m₁ before r a (inl o) =
      elim (Bool-cases (leb (length r.session.tests) (next_incomplete_index r.session))) [
        | inl all ↦
            simp (o.succeeded, all)
              (ended_by r (finalize h r.session r.world) o (leb→le _ _ all) (
                finalize-EndOrRefused h laws r.session r.world
                  (subst (λ s. active s ≡ true) (sym o.session) a) (leb→le _ _ all)))
        | inr more ↦ simp (o.succeeded, more) (going_on o (λ all. ground (arith, le→leb _ _ all)))
      ]

  -- complete_test on a test of an active session, wherever the result is written.
  pub complete_test-Refusal :
      (m : SessionManager Double) (test_id : String) (result : TestResult)
      (details : List NamedTestResult) (w : World) {test : TestRecord Double}
      → active_test m test_id ≡ some test
      → CompletionBy h
          (Refusal h)
          m
          (with_completed h m test_id result details (h.iso_timestamp (h.now w).0))
          w
          (complete_test h m test_id result details w)
  unfolding complete_test
  complete_test-Refusal m test_id result details w {test} found =
      let (a, _) = active_test-some m test_id found in
      let effect = save_completion-Effect m test_id result details w found in
      rw (found, complete_test)
        (finalize_if_done-Completion m _ w (save_completion h m test_id test result details w) a
          effect)

  -- complete_test on a test of an active session, with FileLaws and a session file that is neither the
  -- result file nor its temporary. Either it fails and the session, but for its last error, and its
  -- file are as before; or the test is saved as completed and another one is open; or it was the last
  -- one, and then the session is finalized and saved as completed, or the call fails, the session has
  -- every test completed and its file still holds the document with the test completed.
  pub complete_test-Completion :
      (m : SessionManager Double) (test_id : String) (result : TestResult)
      (details : List NamedTestResult) (w : World) {test : TestRecord Double}
      → SessionApart m
      → active_test m test_id ≡ some test
      → Completion h m
          (with_completed h m test_id result details (h.iso_timestamp (h.now w).0))
          w
          (complete_test h m test_id result details w)
  complete_test-Completion m test_id result details w apart found =
      elim (complete_test-Refusal m test_id result details w found) [
        | undone o ↦ undone o
        | going_on o more ↦ going_on o more
        | ended s o all e ↦ ended s o all e
        | not_finalized o ↦ not_finalized (Refusal-StaysSaved h _ _ apart o)
      ]
