-- ===== src/Session/Document.antt =====
-- src/model/test_session.cpp, the documents that a session writes: the session file, the result file
-- and the result that is uploaded. A document whose nodes cannot be allocated is an error.
use factory_test.Common.{
  Bool, true, not, ◌&&◌, ◌||◌, ◌+◌, ◌==◌, String, concat, is_empty, List, [], ◌∷◌, ◌++◌, map,
  length, if◌then◌else◌,
}
use factory_test.Json.{Json, bool, number, string, array, object, array_of, object_of}
use factory_test.Host.{Host}
use factory_test.Session.Types.{
  TestResult, pass, fail, NamedTestResult, EvidenceValue, TestEvidence, TestRecord, SessionState,
  SessionSummary, SessionManager, is_nil, is_pass, is_completed, has_evidence,
}

abbrev pub k_sequence_id : String
k_sequence_id = "cp0-full-v1"

abbrev pub test_result_text : TestResult → String
test_result_text pass = "PASS"
test_result_text fail = "FAIL"

abbrev pub session_state_text : SessionState → String
session_state_text SessionState.none = "none"
session_state_text SessionState.in_progress = "in_progress"
session_state_text SessionState.completed = "completed"
session_state_text SessionState.abandoned = "abandoned"

module _ {D : Type 0} where
  -- One step of the loop of SessionManager::summary.
  unfoldable pub count_test : TestRecord D → SessionSummary → SessionSummary
  count_test test s = if not test.completed then s else record s {
    completed = s.completed + 1;
    passed = if is_pass test.result then s.passed + 1 else s.passed;
    failed = if is_pass test.result then s.failed else s.failed + 1;
    missing_evidence = if has_evidence test then s.missing_evidence else s.missing_evidence + 1;
  }

  unfoldable pub count_tests : List (TestRecord D) → SessionSummary → SessionSummary
  unfolding count_test
  count_tests [] s = s
  count_tests (test ∷ tests) s = count_tests tests (count_test test s)

  unfoldable pub summary : SessionManager D → SessionSummary
  unfolding count_tests
  summary m = count_tests m.tests (record {
    state = m.state;
    total = length m.tests;
    completed = 0;
    passed = 0;
    failed = 0;
    missing_evidence = 0;
  })

  -- The test that the status of a result is "PASS".
  unfoldable pub session_passed : SessionManager D → Bool
  session_passed m = let s = summary m in s.completed == s.total && s.failed == 0

  abbrev pub evidence_json : EvidenceValue D → Json D
  evidence_json (EvidenceValue.boolean b) = bool b
  evidence_json (EvidenceValue.number d) = number d
  evidence_json (EvidenceValue.string s) = string s

  abbrev pub evidence_fields : TestEvidence D → List (String × Json D)
  evidence_fields [] = []
  evidence_fields ((k, v) ∷ rest) = (k, evidence_json v) ∷ evidence_fields rest

  abbrev pub detail_json : NamedTestResult → Json D
  detail_json d = object (
      object_of
        (("name", string d.test_name) ∷ ("result", string (test_result_text d.result)) ∷ []))

  abbrev pub details_json : List NamedTestResult → Json D
  details_json details = array (array_of (map detail_json details))

  -- A field that is written under a condition.
  abbrev pub only : Bool → String → Json D → List (String × Json D)
  only b key value = if b then (key, value) ∷ [] else []

module _ (h : Host) where
  open h use {Double, of_nat, allocates, print}

  abbrev pub test_json : TestRecord Double → Json Double
  test_json test = object (
      object_of (
        ("id", string test.id)
        ∷ ("name", string test.name)
        ∷ ("completed", bool test.completed)
        ∷ ("attempted", bool test.attempted)
        ∷ ("attempt_count", number (of_nat test.attempt_count))
        ∷ ("attempt_started_at", string test.attempt_started_at)
        ∷ ("attempt_finished_at", string test.attempt_finished_at)
        ∷ ("completed_at", string test.completed_at)
        ∷ (only test.completed "result" (string (test_result_text test.result))
            ++ (only (has_evidence test) "evidence"
                  (object (object_of (evidence_fields test.evidence)))
                ++ only (not (is_nil test.details)) "details" (details_json test.details)))))

  abbrev pub session_json : SessionManager Double → Json Double
  session_json m = object (
      object_of (
        ("id", string m.session_id)
        ∷ ("state", string (session_state_text m.state))
        ∷ ("sequence", string k_sequence_id)
        ∷ ("sequence_number", number (of_nat m.sequence_number))
        ∷ ("started_at", string m.started_at)
        ∷ ("updated_at", string m.updated_at)
        ∷ ("completed_at", string m.completed_at)
        ∷ ("current_test", string m.current_test_id)
        ∷ []))

  abbrev pub device_json : SessionManager Double → Json Double
  device_json m = object (
      object_of (
        ("sku", string m.metadata.sku)
        ∷ ("sn", string m.metadata.serial_number)
        ∷ ("station", string m.metadata.station)
        ∷ ("firmware", string m.metadata.firmware)
        ∷ ("commit", string m.metadata.commit)
        ∷ []))

  -- The session file, with the tests `items`.
  abbrev pub document : SessionManager Double → List (Json Double) → Json Double
  document m items = object (
      object_of (
        ("session", session_json m)
        ∷ ("device", device_json m)
        ∷ ("tests", array (array_of items))
        ∷ ("schema_version", number (of_nat 2))
        ∷ ("result_path", string m.result_path)
        ∷ []))

  unfoldable pub all_allocate : List (Json Double) → Bool
  all_allocate [] = true
  all_allocate (item ∷ items) = allocates item && all_allocate items

  -- The result file.
  abbrev pub result_test_json : TestRecord Double → Json Double
  result_test_json test = object (
      object_of (
        ("result", string (if test.completed then test_result_text test.result else "FAIL"))
        ∷ ("attempted", bool test.attempted)
        ∷ ("has_evidence", bool (has_evidence test))
        ∷ (only (has_evidence test) "evidence" (object (object_of (evidence_fields test.evidence)))
            ++ only (not (is_nil test.details)) "details" (details_json test.details))))

  abbrev pub result_tests : List (TestRecord Double) → List (String × Json Double)
  result_tests [] = []
  result_tests (test ∷ tests) = (test.id, result_test_json test) ∷ result_tests tests

  abbrev pub status_text : SessionManager Double → String
  status_text m = if session_passed m then "PASS" else "FAIL"

  -- The fields that the result file and the upload share, after `test_details`.
  abbrev pub device_fields : SessionManager Double → List (String × Json Double)
  device_fields m =
      ("seq", number (of_nat m.sequence_number))
      ∷ ("sku", string m.metadata.sku)
      ∷ ("sn", string m.metadata.serial_number)
      ∷ ("station", string m.metadata.station)
      ∷ ("status", string (status_text m))
      ∷ ("firmware", string m.metadata.firmware)
      ∷ ("commit", string m.metadata.commit)
      ∷ []

  abbrev pub result_document : SessionManager Double → Json Double
  result_document m = object (
      object_of (
        (
          "test_details",
          object (
              object_of (
                ("tests", object (object_of (result_tests m.tests)))
                ∷ ("detail_schema", string k_sequence_id)
                ∷ ("session_id", string m.session_id)
                ∷ ("started_at", string m.started_at)
                ∷ ("completed_at", string m.completed_at)
                ∷ [])),
        )
        ∷ device_fields m))

  abbrev pub upload_tests : List (TestRecord Double) → List (String × Json Double)
  upload_tests [] = []
  upload_tests (test ∷ tests) =
      (test.id, bool (test.completed && is_pass test.result)) ∷ upload_tests tests

  abbrev pub upload_document : SessionManager Double → Json Double
  upload_document m =
      object
        (object_of (("test_details", object (object_of (upload_tests m.tests))) ∷ device_fields m))

  -- print_json; the text ends in a line break if it is formatted, and is empty if printing fails.
  unfoldable pub print_json : Json Double → Bool → String
  print_json root formatted =
      let text = print root formatted in
      if is_empty text then "" else concat text (if formatted then "\n" else "")

  unfoldable pub build_result_json : SessionManager Double → Bool → String
  unfolding print_json
  build_result_json m formatted =
      if is_empty m.session_id || is_nil m.tests
      then ""
      else if not (allocates (result_document m))
      then ""
      else print_json (result_document m) formatted

  unfoldable pub build_upload_result_json : SessionManager Double → Bool → String
  unfolding print_json
  build_upload_result_json m formatted =
      if is_empty m.session_id || is_nil m.tests || not (is_completed m.state)
      then ""
      else if not (allocates (upload_document m))
      then ""
      else print_json (upload_document m) formatted
