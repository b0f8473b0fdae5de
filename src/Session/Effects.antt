-- ===== src/Session/Effects.antt =====
-- The operations that write the session once: each either takes effect and is saved, or leaves the
-- session, but for its last error, and the session file as they were.
use factory_test.Common.{
  true, false, String, str_eq, List, [], ◌∷◌, some, ◌≡◌, refl, subst, ap, ◌∙◌, ◌⊎◌, inl, inr,
  Bool-cases, arith,
}
use factory_test.Host.{Host, FileLaws}
use factory_test.Session.Types.{SessionState, SessionManager, TestRecord, TestEvidence, is_nil}
use factory_test.Session.Manager.{
  Reply, set_error, active, active_test, find_test, update_test, persist, or_restore, abandon,
  set_current_test, attempt_begun, begin_test,
}
use factory_test.Session.Progress.{
  first_attempt, evidence_added, is_valid_evidence, record_evidence,
}
use factory_test.Session.Saving.{Saved, or_restore_done, or_restore_failed, persist-Outcome}

module _ {D : Type 0} where
  -- Writing the old record back undoes a write that keeps the test's id.
  pub update_test-undo :
      (test_id : String) (f : TestRecord D → TestRecord D) (tests : List (TestRecord D))
      {test : TestRecord D}
      → find_test test_id tests ≡ some test
      → ((t : TestRecord D) → (f t).id ≡ t.id)
      → update_test test_id (λ _. test) (update_test test_id f tests) ≡ tests
  unfolding find_test update_test
  update_test-undo test_id f [] e k = refl
  update_test-undo test_id f (t ∷ tests) {test} e k = elim (Bool-cases (str_eq t.id test_id)) [
    | inl same ↦ ground (arith, k t)
    | inr other ↦ ground (arith, update_test-undo test_id f tests {test = test} (ground arith) k)
  ]

module _ {D : Type 0} where
  pub active_test-some :
      (m : SessionManager D) (test_id : String) {test : TestRecord D}
      → active_test m test_id ≡ some test
      → (active m ≡ true) × (find_test test_id m.tests ≡ some test)
  unfolding active_test
  active_test-some m test_id found = ground arith

  abbrev pub with_tests : SessionManager D → String → List (TestRecord D) → SessionManager D
  with_tests m error tests = record m { last_error = error; tests = tests }

module _ (h : Host) where
  open h use {World, Double}

  -- The session is as before but for its last error, and so is its file.
  pub record Undone (m : SessionManager Double) (before : World) (r : Reply h) : Type 0 where
    pub error : String
    pub failed : r.success ≡ false
    pub session : r.session ≡ set_error m error
    pub kept : h.contents r.world m.session_path ≡ h.contents before m.session_path

  abbrev pub Effect : SessionManager Double → SessionManager Double → World → Reply h → Type 0
  Effect m m₁ before r = Saved h m₁ r ⊎ Undone m before r

module _ (h : Host) (laws : FileLaws h) where
  open h use {World, Double}

  pub or_restore-Effect :
      (m m₁ : SessionManager Double) (restore : SessionManager Double → SessionManager Double)
      (before w : World)
      → ((error time : String)
          → restore (record m₁ { last_error = error; updated_at = time }) ≡ set_error m error)
      → m₁.session_path ≡ m.session_path
      → h.contents w m.session_path ≡ h.contents before m.session_path
      → Effect h m m₁ before (or_restore h (persist h m₁ w) restore)
  or_restore-Effect m m₁ restore before w undo p k = elim (persist-Outcome h laws m₁ w) [
    | inl o ↦ rw (or_restore_done h (persist h m₁ w) restore o.succeeded) (inl o)
    | inr o ↦ rw (or_restore_failed h (persist h m₁ w) restore o.failed) (
        inr (record {
          error = o.error;
          failed = refl;
          session = ap restore o.session ∙ undo o.error o.time;
          kept =
              subst (λ path. h.contents (persist h m₁ w).world path ≡ h.contents w path) p o.kept
              ∙ k;
        }))
  ]

  -- With FileLaws abandoning an active session either saves
  -- the session with its state abandoned and no current test, or fails and leaves the session, but
  -- for its last error, and its file as they were.
  pub abandon-Effect :
      (m : SessionManager Double) (w : World)
      → active m ≡ true
      → (time : String) × Effect h m
          (record m { state = SessionState.abandoned; current_test_id = ""; updated_at = time })
          w
          (abandon h m w)
  unfolding abandon
  abandon-Effect m w a = (
    h.iso_timestamp (h.now w).0,
    rw a (
        or_restore-Effect m _ _ w (h.now w).1 (λ error time. refl) refl
          (laws.now_contents w m.session_path)),
  )

  -- With FileLaws beginning an open test of an active session either saves
  -- the session with the test current and its attempt begun, or fails and leaves the session, but
  -- for its last error, and its file as they were.
  pub begin_test-Effect :
      (m : SessionManager Double) (test_id : String) (w : World) {test : TestRecord Double}
      → active_test m test_id ≡ some test
      → test.completed ≡ false
      → (time : String) × Effect h m
          (record m {
            current_test_id = test_id;
            tests = update_test test_id (attempt_begun h time) m.tests;
            updated_at = time;
          })
          w
          (begin_test h m test_id w)
  unfolding begin_test
  begin_test-Effect m test_id w {test} found fresh =
      let (_, here) = active_test-some m test_id found in
      (
        h.iso_timestamp (h.now w).0,
        rw (found, begin_test)
            (simp fresh (
              or_restore-Effect m _ _ w (h.now w).1
                (λ error time.
                  ap (with_tests m error) (update_test-undo test_id _ m.tests here (λ t. refl)))
                refl (laws.now_contents w m.session_path))),
      )

  -- With FileLaws selecting another test of an active session either saves
  -- the session with that test current, or fails and leaves the session, but
  -- for its last error, and its file as they were.
  pub set_current_test-Effect :
      (m : SessionManager Double) (test_id : String) (w : World) {test : TestRecord Double}
      → active_test m test_id ≡ some test
      → str_eq m.current_test_id test_id ≡ false
      → (time : String) × Effect h m
          (record m { current_test_id = test_id; updated_at = time })
          w
          (set_current_test h m test_id w)
  unfolding set_current_test
  set_current_test-Effect m test_id w found other = (
    h.iso_timestamp (h.now w).0,
    rw (found, set_current_test)
        (simp other (
          or_restore-Effect m _ _ w (h.now w).1 (λ error time. refl) refl
            (laws.now_contents w m.session_path))),
  )

  -- What `first_attempt` does to a record keeps its id, and its reading of the clock keeps the files.
  first_attempt-id :
      (test t : TestRecord Double) (w : World) → ((first_attempt h test w).0 t).id ≡ t.id
  first_attempt-id test t w = elim (Bool-cases test.attempted) [
    | inl e ↦ rw (e, first_attempt)
    | inr e ↦ rw (e, first_attempt)
  ]

  first_attempt-contents :
      (test : TestRecord Double) (w : World) (path : String)
      → h.contents (first_attempt h test w).1 path ≡ h.contents w path
  first_attempt-contents test w path = elim (Bool-cases test.attempted) [
    | inl e ↦ rw (e, first_attempt)
    | inr e ↦ rw (e, first_attempt) (laws.now_contents w path)
  ]

  -- With FileLaws recording valid evidence, not empty, on an open test of an active session either saves
  -- the session with the evidence put on the test, whose first attempt begins if it had none, or fails and leaves the session, but
  -- for its last error, and its file as they were.
  pub record_evidence-Effect :
      (m : SessionManager Double) (test_id : String) (evidence : TestEvidence Double) (w : World)
      {test : TestRecord Double}
      → active_test m test_id ≡ some test
      → test.completed ≡ false
      → is_nil evidence ≡ false
      → is_valid_evidence h evidence ≡ true
      → (time : String) × Effect h m
          (record m {
            tests =
                update_test test_id
                  (λ t. evidence_added h evidence ((first_attempt h test w).0 t))
                  m.tests;
            updated_at = time;
          })
          w
          (record_evidence h m test_id evidence w)
  unfolding record_evidence
  record_evidence-Effect m test_id evidence w {test} found fresh some_entry valid =
      let (_, here) = active_test-some m test_id found in
      let w₁ = (first_attempt h test w).1 in
      (
        h.iso_timestamp (h.now w₁).0,
        rw (found, record_evidence)
            (simp (fresh, some_entry, valid)
              (or_restore-Effect m _ _ w (h.now w₁).1
                (λ error time.
                  ap (with_tests m error)
                    (update_test-undo test_id _ m.tests here (λ t. first_attempt-id test t w)))
                refl
                (laws.now_contents w₁ m.session_path
                  ∙ first_attempt-contents test w m.session_path))),
      )
