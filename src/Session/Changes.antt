-- ===== src/Session/Changes.antt =====
-- Each call makes its own change or none, and completing a test may finish the session after it.
use factory_test.Common.{
  true, false, String, str_eq, List, length, ltb, some, ◌≤◌, ◌≡◌, refl, ap, ◌∙◌, inl, inr,
  Bool-cases, Option-cases, arith,
}
use factory_test.Host.{Host, FileLaws}
use factory_test.Session.Types.{
  TestResult, NamedTestResult, TestEvidence, TestRecord, SessionManager, is_nil, is_completed,
}
use factory_test.Session.Manager.{
  Reply, set_error, active, active_test, next_incomplete, abandon, set_current_test, begin_test,
}
use factory_test.Session.Progress.{is_valid_evidence, record_evidence, finalize, complete_test}
use factory_test.Session.Saving.{Saved}
use factory_test.Session.Effects.{
  Undone, active_test-some, abandon-Effect, begin_test-Effect, set_current_test-Effect,
  record_evidence-Effect,
}
use factory_test.Session.Endings.{EndOrRefused, finalize-EndOrRefused}
use factory_test.Session.Completion.{
  Refusal, CompletionBy, undone, going_on, ended, not_finalized, complete_test-Refusal,
  with_completed,
}
use factory_test.Session.Calls.{
  Call, selects, begins, records, completes, finalizes, abandons, apply, Change, keep, select,
  begin, observe, complete, finish, give_up, cause, Makes, Changes, once, then_finishes,
}

module _ (h : Host) (laws : FileLaws h) where
  open h use {World, Double}

  keep_error :
      (call : Call Double) (m : SessionManager Double) (r : Reply h) (error : String)
      → r.session ≡ set_error m error
      → Makes h call m r.session
  unfolding cause
  keep_error call m r error e =
      (keep (ap (λ s. s.state) e) (ap (λ s. s.tests) e) (ap (λ s. s.current_test_id) e), inl refl)

  Undone-Makes :
      (call : Call Double) (m : SessionManager Double) (before : World) (r : Reply h)
      → Undone h m before r
      → Makes h call m r.session
  Undone-Makes call m before r o = keep_error call m r o.error o.session

  begin_test-Makes :
      (m : SessionManager Double) (test_id : String) (w : World)
      → Makes h (begins test_id) m (begin_test h m test_id w).session
  unfolding begin_test cause
  begin_test-Makes m test_id w = elim (Option-cases (active_test m test_id)) [
    | inl missing ↦ rw (missing, begin_test) (keep refl refl refl, inl refl)
    | inr (test, found) ↦ elim (Bool-cases test.completed) [
      | inl closed ↦ rw (found, begin_test) (simp closed (keep refl refl refl, inl refl))
      | inr fresh ↦ begun test found fresh
    ]
  ]
    where
      begun :
          (test : TestRecord Double)
          → active_test m test_id ≡ some test
          → test.completed ≡ false
          → Makes h (begins test_id) m (begin_test h m test_id w).session
      begun test found fresh =
          let (time, effect) = begin_test-Effect h laws m test_id w found fresh in
          elim effect [
            | inl o ↦ (
              begin test_id time test found fresh (ap (λ s. s.state) o.session)
                  (ap (λ s. s.tests) o.session) (ap (λ s. s.current_test_id) o.session),
              inr refl,
            )
            | inr o ↦ Undone-Makes (begins test_id) m w (begin_test h m test_id w) o
          ]

  set_current_test-Makes :
      (m : SessionManager Double) (test_id : String) (w : World)
      → Makes h (selects test_id) m (set_current_test h m test_id w).session
  unfolding set_current_test cause
  set_current_test-Makes m test_id w = elim (Option-cases (active_test m test_id)) [
    | inl missing ↦ rw (missing, set_current_test) (keep refl refl refl, inl refl)
    | inr (test, found) ↦ elim (Bool-cases (str_eq m.current_test_id test_id)) [
      | inl same ↦ rw (found, set_current_test) (simp same (keep refl refl refl, inl refl))
      | inr other ↦ selected test found other
    ]
  ]
    where
      selected :
          (test : TestRecord Double)
          → active_test m test_id ≡ some test
          → str_eq m.current_test_id test_id ≡ false
          → Makes h (selects test_id) m (set_current_test h m test_id w).session
      selected test found other =
          let (time, effect) = set_current_test-Effect h laws m test_id w found other in
          elim effect [
            | inl o ↦ (
              select test_id test found (ap (λ s. s.state) o.session) (ap (λ s. s.tests) o.session)
                  (ap (λ s. s.current_test_id) o.session),
              inr refl,
            )
            | inr o ↦ Undone-Makes (selects test_id) m w (set_current_test h m test_id w) o
          ]

  abandon-Makes :
      (m : SessionManager Double) (w : World) → Makes h abandons m (abandon h m w).session
  unfolding abandon cause
  abandon-Makes m w = elim (Bool-cases (active m)) [
    | inl a ↦ given_up a
    | inr over ↦ simp over (keep refl refl refl, inl refl)
  ]
    where
      given_up : active m ≡ true → Makes h abandons m (abandon h m w).session
      given_up a =
          let (time, effect) = abandon-Effect h laws m w a in
          elim effect [
            | inl o ↦ (
              give_up a (ap (λ s. s.state) o.session) (ap (λ s. s.tests) o.session)
                  (ap (λ s. s.current_test_id) o.session),
              inr refl,
            )
            | inr o ↦ Undone-Makes abandons m w (abandon h m w) o
          ]

  record_evidence-Makes :
      (m : SessionManager Double) (test_id : String) (evidence : TestEvidence Double) (w : World)
      → Makes h (records test_id evidence) m (record_evidence h m test_id evidence w).session
  unfolding record_evidence cause
  record_evidence-Makes m test_id evidence w = elim (Option-cases (active_test m test_id)) [
    | inl missing ↦ rw (missing, record_evidence) (keep refl refl refl, inl refl)
    | inr (test, found) ↦ elim (Bool-cases test.completed) [
      | inl closed ↦ rw (found, record_evidence) (simp closed (keep refl refl refl, inl refl))
      | inr fresh ↦ elim (Bool-cases (is_nil evidence)) [
        | inl e ↦ rw (found, record_evidence) (simp (fresh, e) (keep refl refl refl, inl refl))
        | inr e ↦ elim (Bool-cases (is_valid_evidence h evidence)) [
          | inl valid ↦ observed test found fresh e valid
          | inr bad ↦
              rw (found, record_evidence) (simp (fresh, e, bad) (keep refl refl refl, inl refl))
        ]
      ]
    ]
  ]
    where
      observed :
          (test : TestRecord Double)
          → active_test m test_id ≡ some test
          → test.completed ≡ false
          → is_nil evidence ≡ false
          → is_valid_evidence h evidence ≡ true
          → Makes h (records test_id evidence) m (record_evidence h m test_id evidence w).session
      observed test found fresh e valid =
          let (time, effect) =
            record_evidence-Effect h laws m test_id evidence w found fresh e valid in
          elim effect [
            | inl o ↦ (
              observe test_id evidence test w found fresh e valid (ap (λ s. s.state) o.session)
                  (ap (λ s. s.tests) o.session) (ap (λ s. s.current_test_id) o.session),
              inr refl,
            )
            | inr o ↦
                Undone-Makes (records test_id evidence) m w (record_evidence h m test_id evidence w)
                  o
          ]

  End-Makes :
      (m : SessionManager Double) (before : World) (r : Reply h)
      → active m ≡ true
      → length m.tests ≤ next_incomplete m.tests
      → EndOrRefused h m before r
      → Makes h finalizes m r.session
  unfolding cause
  End-Makes m before r a all (inl o) = (
    finish a all (ap (λ s. s.state) o.session) (ap (λ s. s.tests) o.session)
        (ap (λ s. s.current_test_id) o.session),
    inr refl,
  )
  End-Makes m before r a all (inr o) = keep_error finalizes m r o.error o.session

  finalize-Makes :
      (m : SessionManager Double) (w : World) → Makes h finalizes m (finalize h m w).session
  unfolding finalize cause
  finalize-Makes m w = elim (Bool-cases (is_completed m.state)) [
    | inl over ↦ simp over (keep refl refl refl, inl refl)
    | inr c ↦ elim (Bool-cases (active m)) [
      | inr not_active ↦ simp (c, not_active) (keep refl refl refl, inl refl)
      | inl a ↦ elim (Bool-cases (ltb (next_incomplete m.tests) (length m.tests))) [
        | inl open_test ↦ simp (c, a, open_test) (keep refl refl refl, inl refl)
        | inr all ↦ ended_so a (ground arith)
      ]
    ]
  ]
    where
      ended_so :
          active m ≡ true
          → length m.tests ≤ next_incomplete m.tests
          → Makes h finalizes m (finalize h m w).session
      ended_so a all = End-Makes m w (finalize h m w) a all (finalize-EndOrRefused h laws m w a all)

  Completion-Changes :
      (m : SessionManager Double) (test_id time : String) (result : TestResult)
      (details : List NamedTestResult) (w : World) (r : Reply h) {test : TestRecord Double}
      → active_test m test_id ≡ some test
      → CompletionBy h (Refusal h) m (with_completed h m test_id result details time) w r
      → Changes h (completes test_id result details) m r.session
  unfolding cause
  Completion-Changes m test_id time result details w r {test} found c = via c
    where
      saved :
          (s : Reply h)
          → Saved h (with_completed h m test_id result details time) s
          → (change : Change h m s.session) × (cause h change
              ≡ some (completes test_id result details))
      saved s o = (
        complete test_id time result details test found (ap (λ s. s.state) o.session)
            (ap (λ s. s.tests) o.session) (ap (λ s. s.current_test_id) o.session),
        refl,
      )

      still_active :
          (s : Reply h)
          → Saved h (with_completed h m test_id result details time) s
          → active s.session ≡ true
      still_active s o = ap active o.session ∙ (active_test-some m test_id found).0

      finishing :
          (s : Reply h)
          → Saved h (with_completed h m test_id result details time) s
          → length s.session.tests ≤ next_incomplete s.session.tests
          → EndOrRefused h s.session s.world r
          → Changes h (completes test_id result details) m r.session
      finishing s o all e =
          let (change, completing) = saved s o in
          then_finishes test_id result details s.session refl change completing
            (End-Makes s.session s.world r (still_active s o) all e)

      via :
          CompletionBy h (Refusal h) m (with_completed h m test_id result details time) w r
          → Changes h (completes test_id result details) m r.session
      via (undone o) = once (Undone-Makes _ m w r o)
      via (going_on o more) = let (change, completing) = saved r o in once (change, inr completing)
      via (ended s o all e) = finishing s o all (inl e)
      via (not_finalized o) = finishing o.saved o.done o.all_done (inr o.refused)

  complete_test-Changes :
      (m : SessionManager Double) (test_id : String) (result : TestResult)
      (details : List NamedTestResult) (w : World)
      → Changes h
          (completes test_id result details)
          m
          (complete_test h m test_id result details w).session
  unfolding complete_test cause
  complete_test-Changes m test_id result details w = elim (Option-cases (active_test m test_id)) [
    | inl missing ↦ rw (missing, complete_test) (once (keep refl refl refl, inl refl))
    | inr (test, found) ↦ saved_and_ended test found
  ]
    where
      saved_and_ended :
          (test : TestRecord Double)
          → active_test m test_id ≡ some test
          → Changes h
              (completes test_id result details)
              m
              (complete_test h m test_id result details w).session
      saved_and_ended test found =
          Completion-Changes m test_id _ result details w
            (complete_test h m test_id result details w) found
            (complete_test-Refusal h laws m test_id result details w found)

  -- With FileLaws every call, whatever fails, leaves the state, the tests and the current test as they
  -- are or makes the one change that this call with its arguments is for; only completing a test may,
  -- after that change, also finish the session.
  pub apply-Changes :
      (m : SessionManager Double) (call : Call Double) (w : World)
      → Changes h call m (apply h m call w).session
  unfolding apply
  apply-Changes m (selects test_id) w = once (set_current_test-Makes m test_id w)
  apply-Changes m (begins test_id) w = once (begin_test-Makes m test_id w)
  apply-Changes m (records test_id evidence) w = once (record_evidence-Makes m test_id evidence w)
  apply-Changes m (completes test_id result details) w =
      complete_test-Changes m test_id result details w
  apply-Changes m finalizes w = once (finalize-Makes m w)
  apply-Changes m abandons w = once (abandon-Makes m w)
