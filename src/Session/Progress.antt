-- ===== src/Session/Progress.antt =====
-- src/model/test_session.cpp, SessionManager: the evidence of a test, its completion, and the end of the
-- sequence.
use factory_test.Common.{
  Bool, true, false, not, ◌&&◌, ◌||◌, String, is_empty, List, [], ◌∷◌, length, ltb, leb, none, some,
  if◌then◌else◌,
}
use factory_test.Host.{Host}
use factory_test.Session.Types.{
  TestResult, NamedTestResult, EvidenceValue, TestEvidence, TestRecord, SessionState,
  SessionManager, is_nil, is_completed, assign,
}
use factory_test.Session.Manager.{
  Reply, reply, set_error, active, active_test, update_test, next_incomplete_index,
  now_iso_timestamp, persist, write_result, or_restore,
}

module _ {D : Type 0} where
  -- test->evidence[key] = value for each entry.
  unfoldable pub assign_all : TestEvidence D → TestEvidence D → TestEvidence D
  assign_all [] evidence = evidence
  assign_all ((key, value) ∷ entries) evidence = assign_all entries (assign key value evidence)

  -- The record of a test that is completed at a time.
  abbrev pub test_completed :
      String → TestResult → List NamedTestResult → TestRecord D → TestRecord D
  test_completed time result details test = record test {
    completed = true;
    result = result;
    completed_at = time;
    details = details;
    attempt_finished_at = if test.attempted then time else test.attempt_finished_at;
  }

module _ (h : Host) where
  open h use {World, Double, is_finite}

  abbrev pub is_valid_entry : String → EvidenceValue Double → Bool
  is_valid_entry key (EvidenceValue.number d) = not (is_empty key) && is_finite d
  is_valid_entry key (EvidenceValue.boolean _) = not (is_empty key)
  is_valid_entry key (EvidenceValue.string _) = not (is_empty key)

  unfoldable pub is_valid_evidence : TestEvidence Double → Bool
  is_valid_evidence [] = true
  is_valid_evidence ((key, value) ∷ entries) = is_valid_entry key value && is_valid_evidence entries

  -- `if (!test->attempted) { … }`, with the time that only that branch reads.
  abbrev pub first_attempt :
      TestRecord Double → World → (TestRecord Double → TestRecord Double) × World
  first_attempt test w =
      if not test.attempted
      then (let (time, w') = now_iso_timestamp h w in
          (λ t. record t { attempted = true; attempt_count = 1; attempt_started_at = time }, w'))
      else (λ t. t, w)

  abbrev pub evidence_added : TestEvidence Double → TestRecord Double → TestRecord Double
  evidence_added entries test = record test { evidence = assign_all entries test.evidence }

  unfoldable pub record_evidence :
      SessionManager Double → String → TestEvidence Double → World → Reply h
  record_evidence m test_id evidence w = elim (active_test m test_id) [
    | none ↦ reply h false (set_error m "cannot record evidence for an unavailable test") w
    | some test ↦
        if test.completed || is_nil evidence
        then reply h false (set_error m "cannot record evidence for an unavailable test") w
        else if not (is_valid_evidence evidence)
        then reply h false (set_error m "test evidence contains an invalid key or number") w
        else (let (begin, w₁) = first_attempt test w in
            let (time, w₂) = now_iso_timestamp h w₁ in
            or_restore h
              (persist h
                (record m {
                  tests = update_test test_id (λ t. evidence_added evidence (begin t)) m.tests;
                  updated_at = time;
                })
                w₂)
              (λ m'. record m' {
                tests = update_test test_id (λ _. test) m'.tests;
                updated_at = m.updated_at;
              }))
  ]

  -- The overload for one key, whose map has one entry.
  unfoldable pub record_one :
      SessionManager Double → String → String → EvidenceValue Double → World → Reply h
  record_one m test_id key value w = record_evidence m test_id ((key, value) ∷ []) w

  -- `!write_result_() || !persist_()`.
  abbrev pub write_both : SessionManager Double → World → Reply h
  write_both m w =
      let r = write_result h m w in if r.success then persist h r.session r.world else r

  unfoldable pub finalize : SessionManager Double → World → Reply h
  finalize m w =
      if is_completed m.state
      then reply h true m w
      else if not (active m) || ltb (next_incomplete_index m) (length m.tests)
      then reply h false (set_error m "cannot finalize an incomplete test session") w
      else (let (time, w') = now_iso_timestamp h w in
          or_restore h
            (write_both
              (record m {
                state = SessionState.completed;
                completed_at = time;
                updated_at = time;
                current_test_id = "";
              })
              w')
            (λ m'. record m' {
              state = m.state;
              completed_at = m.completed_at;
              updated_at = m.updated_at;
              current_test_id = m.current_test_id;
            }))

  -- What complete_test does before it looks at the rest of the sequence.
  unfoldable pub save_completion :
      SessionManager Double
      → String
      → TestRecord Double
      → TestResult
      → List NamedTestResult
      → World
      → Reply h
  save_completion m test_id test result details w =
      let (time, w') = now_iso_timestamp h w in
      or_restore h
        (persist h
          (record m {
            tests = update_test test_id (test_completed time result details) m.tests;
            updated_at = time;
          })
          w')
        (λ m'. record m' {
          tests = update_test test_id (λ _. test) m'.tests;
          updated_at = m.updated_at;
        })

  abbrev pub finalize_if_done : Reply h → Reply h
  finalize_if_done r =
      if not r.success
      then r
      else if leb (length r.session.tests) (next_incomplete_index r.session)
      then finalize r.session r.world
      else r

  unfoldable pub complete_test :
      SessionManager Double → String → TestResult → List NamedTestResult → World → Reply h
  complete_test m test_id result details w = elim (active_test m test_id) [
    | none ↦ reply h false (set_error m "cannot complete a test outside an active session") w
    | some test ↦ finalize_if_done (save_completion m test_id test result details w)
  ]
