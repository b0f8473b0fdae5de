-- ===== src/Session/Soundness.antt =====
-- What holds of a session between two calls.
use factory_test.Common.{
  true, false, String, str_eq, List, [], ◌∷◌, map, length, All, some, ◌≤◌, ◌≡◌, refl, sym, subst,
  ap, ◌∙◌, ◌⊎◌, inl, inr, Bool-cases, arith,
}
use factory_test.Host.{Host}
use factory_test.Session.Types.{
  fail, TestRecord, TestEvidence, SessionState, SessionManager, is_in_progress,
}
use factory_test.Session.Manager.{
  active, active_test, find_test, update_test, next_incomplete, attempt_begun,
}
use factory_test.Session.Progress.{first_attempt, evidence_added}
use factory_test.Session.Effects.{active_test-some}
use factory_test.Session.Calls.{Change, keep, select, begin, observe, complete, finish, give_up}

module _ {D : Type 0} where
  -- A test that was not attempted has no evidence and no attempts, and one that is not completed has no
  -- result.
  abbrev pub RecordOk : TestRecord D → Type 0
  RecordOk t =
      (t.attempted ≡ false → (t.attempt_count ≡ 0) × (t.evidence ≡ []))
      × (t.completed ≡ false → (t.result ≡ fail) × (t.completed_at ≡ "") × (t.details ≡ []))

  pub record IsSound (m : SessionManager D) : Type 0 where
    pub records : All RecordOk m.tests
    pub done : m.state ≡ SessionState.completed → length m.tests ≤ next_incomplete m.tests
    pub current :
        (m.current_test_id ≡ "") ⊎ ((t : TestRecord D) × (active_test m m.current_test_id ≡ some t))

module _ {D : Type 0} (P : TestRecord D → Type 0) (test_id : String) where
  find_test-All :
      (tests : List (TestRecord D)) {test : TestRecord D}
      → All P tests
      → find_test test_id tests ≡ some test
      → P test
  unfolding find_test
  find_test-All [] all e = absurd (cc)
  find_test-All (t ∷ tests) {test} all e = elim (Bool-cases (str_eq t.id test_id)) [
    | inl same ↦ (let eq : t ≡ test = ground arith in subst P eq all.0)
    | inr other ↦ find_test-All tests {test = test} all.1 (ground arith)
  ]

  update_test-All :
      (f : TestRecord D → TestRecord D) (tests : List (TestRecord D)) {test : TestRecord D}
      → All P tests
      → find_test test_id tests ≡ some test
      → P (f test)
      → All P (update_test test_id f tests)
  unfolding find_test update_test
  update_test-All f [] all e p = tt
  update_test-All f (t ∷ tests) {test} all e p = elim (Bool-cases (str_eq t.id test_id)) [
    | inl same ↦ (let eq : test ≡ t = ground arith in simp same (subst (λ s. P (f s)) eq p, all.1))
    | inr other ↦ simp other (all.0, update_test-All f tests {test = test} all.1 (ground arith) p)
  ]

module _ {D : Type 0} where
  abbrev pub ids : List (TestRecord D) → List String
  ids = map (λ t. t.id)

  pub ids-update_test :
      (test_id : String) (f : TestRecord D → TestRecord D) (tests : List (TestRecord D))
      → ((t : TestRecord D) → (f t).id ≡ t.id)
      → ids (update_test test_id f tests) ≡ ids tests
  unfolding update_test
  ids-update_test test_id f [] k = refl
  ids-update_test test_id f (t ∷ tests) k = ground (arith, k t, ids-update_test test_id f tests k)

  -- Whether a test is found depends on the ids alone.
  find_test-ids :
      (test_id : String) (tests tests' : List (TestRecord D)) {test : TestRecord D}
      → ids tests' ≡ ids tests
      → find_test test_id tests ≡ some test
      → (t : TestRecord D) × (find_test test_id tests' ≡ some t)
  unfolding find_test
  find_test-ids test_id [] tests' e found = absurd (cc)
  find_test-ids test_id (t ∷ tests) [] e found = absurd (cc)
  find_test-ids test_id (t ∷ tests) (t' ∷ tests') {test} e found =
      elim (Bool-cases (str_eq t.id test_id)) [
        | inl same ↦ (t', ground arith)
        | inr other ↦
            let (s, here) =
              find_test-ids test_id tests tests' {test = test} (ground arith) (ground arith) in
            (s, ground arith)
      ]

  active_of :
      (m : SessionManager D) (test_id : String) {test : TestRecord D}
      → active m ≡ true
      → find_test test_id m.tests ≡ some test
      → active_test m test_id ≡ some test
  unfolding active_test
  active_of m test_id a e = simp a e

  active_test-same :
      (m m' : SessionManager D) (test_id : String)
      → m'.state ≡ m.state
      → ids m'.tests ≡ ids m.tests
      → ((t : TestRecord D) × (active_test m test_id ≡ some t))
      → (t : TestRecord D) × (active_test m' test_id ≡ some t)
  active_test-same m m' test_id s e (t, found) =
      let (a, here) = active_test-some m test_id found in
      let (t', there) = find_test-ids test_id m.tests m'.tests e here in
      (t', active_of m' test_id (ap is_in_progress s ∙ a) there)

  current-same :
      (m m' : SessionManager D)
      → m'.state ≡ m.state
      → ids m'.tests ≡ ids m.tests
      → m'.current_test_id ≡ m.current_test_id
      → IsSound m
      → (m'.current_test_id ≡ "")
        ⊎ ((t : TestRecord D) × (active_test m' m'.current_test_id ≡ some t))
  current-same m m' s e c sound = elim sound.current [
    | inl none_selected ↦ inl (c ∙ none_selected)
    | inr t ↦ inr (simp c (active_test-same m m' m.current_test_id s e t))
  ]

  -- A session under way is not completed.
  under_way :
      {A : Type 0} (m : SessionManager D) (state : SessionState)
      → active m ≡ true
      → state ≡ m.state
      → state ≡ SessionState.completed
      → A
  under_way m state a same over =
      let bad : false ≡ true = ap is_in_progress (sym over ∙ same) ∙ a in cc

module _ (h : Host) where
  open h use {World, Double}

  first_attempt-tried :
      (t : TestRecord Double) (w : World) → t.attempted ≡ true → (first_attempt h t w).0 ≡ (λ r. r)
  first_attempt-tried t w tried = simp tried

  first_attempt-new :
      (t : TestRecord Double) (w : World)
      → t.attempted ≡ false
      → (first_attempt h t w).0 ≡ (λ r. record r {
        attempted = true;
        attempt_count = 1;
        attempt_started_at = h.iso_timestamp (h.now w).0;
      })
  first_attempt-new t w new = simp new

  first_attempt-ok :
      (evidence : TestEvidence Double) (t : TestRecord Double) (w : World)
      → RecordOk t
      → RecordOk (evidence_added h evidence ((first_attempt h t w).0 t))
  first_attempt-ok evidence t w ok = elim (Bool-cases t.attempted) [
    | inl tried ↦
        subst
          (λ (f : TestRecord Double → TestRecord Double).
            RecordOk (evidence_added h evidence (f t)))
          (sym (first_attempt-tried t w tried))
          (λ e. absurd (let bad : true ≡ false = sym tried ∙ e in cc), ok.1)
    | inr new ↦
        subst
          (λ (f : TestRecord Double → TestRecord Double).
            RecordOk (evidence_added h evidence (f t)))
          (sym (first_attempt-new t w new)) (λ e. absurd (let bad : true ≡ false = e in cc), ok.1)
  ]

  first_attempt-id :
      (test t : TestRecord Double) (w : World) → ((first_attempt h test w).0 t).id ≡ t.id
  first_attempt-id test t w = elim (Bool-cases test.attempted) [
    | inl e ↦ rw (e, first_attempt)
    | inr e ↦ rw (e, first_attempt)
  ]

  -- The ids of the tests stay as they were planned.
  pub Change-ids : {m m' : SessionManager Double} → Change h m m' → ids m'.tests ≡ ids m.tests
  Change-ids (keep s t c) = ap ids t
  Change-ids (select test_id test found s t c) = ap ids t
  Change-ids {m} (begin test_id time test found fresh s t c) =
      ap ids t ∙ ids-update_test test_id _ m.tests (λ r. refl)
  Change-ids {m} (observe test_id evidence test w found fresh e v s t c) =
      ap ids t ∙ ids-update_test test_id _ m.tests (λ r. first_attempt-id test r w)
  Change-ids {m} (complete test_id time result details test found s t c) =
      ap ids t ∙ ids-update_test test_id _ m.tests (λ r. refl)
  Change-ids (finish a all s t c) = ap ids t
  Change-ids (give_up a s t c) = ap ids t

  -- A change of one test of a session under way keeps the session sound.
  one_test-IsSound :
      (m m' : SessionManager Double) (test_id : String) (f : TestRecord Double → TestRecord Double)
      {test : TestRecord Double}
      → IsSound m
      → active_test m test_id ≡ some test
      → (RecordOk test → RecordOk (f test))
      → m'.state ≡ m.state
      → m'.tests ≡ update_test test_id f m.tests
      → ((m'.current_test_id ≡ "")
          ⊎ ((t : TestRecord Double) × (active_test m' m'.current_test_id ≡ some t)))
      → IsSound m'
  one_test-IsSound m m' test_id f {test} sound found ok s t current =
      let (a, here) = active_test-some m test_id found in
      let before = find_test-All RecordOk test_id m.tests sound.records here in
      record {
        records =
            subst (All RecordOk) (sym t)
              (update_test-All RecordOk test_id f m.tests sound.records here (ok before));
        done = under_way m m'.state a s;
        current = current;
      }

  pub Change-IsSound : {m m' : SessionManager Double} → Change h m m' → IsSound m → IsSound m'
  Change-IsSound {m} {m'} (keep s t c) sound = record {
    records = subst (All RecordOk) (sym t) sound.records;
    done = λ e. rw t (sound.done (sym s ∙ e));
    current = current-same m m' s (ap ids t) c sound;
  }
  Change-IsSound {m} {m'} (select test_id test found s t c) sound = record {
    records = subst (All RecordOk) (sym t) sound.records;
    done = λ e. rw t (sound.done (sym s ∙ e));
    current = inr (simp c (active_test-same m m' test_id s (ap ids t) (test, found)));
  }
  Change-IsSound {m} {m'} (begin test_id time test found fresh s t c) sound =
      one_test-IsSound m m' test_id (attempt_begun h time) sound found (λ ok. (λ e. cc, ok.1)) s t
        (inr (
          simp c (
            active_test-same m m' test_id s
              (Change-ids {m = m} {m' = m'} (begin test_id time test found fresh s t c))
              (test, found))))
  Change-IsSound {m} {m'} (observe test_id evidence test w found fresh e v s t c) sound =
      one_test-IsSound m m' test_id _ sound found (first_attempt-ok evidence test w) s t (
        current-same m m' s
          (Change-ids {m = m} {m' = m'} (observe test_id evidence test w found fresh e v s t c)) c
          sound)
  Change-IsSound {m} {m'} (complete test_id time result details test found s t c) sound =
      one_test-IsSound m m' test_id _ sound found (λ ok. (ok.0, λ e. cc)) s t
        (current-same m m' s
          (Change-ids {m = m} {m' = m'} (complete test_id time result details test found s t c)) c
          sound)
  Change-IsSound {m} {m'} (finish a all s t c) sound = record {
    records = subst (All RecordOk) (sym t) sound.records;
    done = λ e. rw t all;
    current = inl c;
  }
  Change-IsSound {m} {m'} (give_up a s t c) sound = record {
    records = subst (All RecordOk) (sym t) sound.records;
    done =
        λ e. absurd (let bad : SessionState.abandoned ≡ SessionState.completed = sym s ∙ e in cc);
    current = inl c;
  }
