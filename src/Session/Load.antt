-- ===== src/Session/Load.antt =====
-- src/model/test_session.cpp, reading a session back: parse_session_document and what it uses, and
-- SessionManager::load_latest_recoverable.
use factory_test.Common.{
  Bool, true, false, not, ℕ, String, str_eq, is_empty, List, [], ◌∷◌, Option, none, some,
  if◌then◌else◌,
}
use factory_test.Json.{
  Json, Items, Fields, nil, cons, end, field, bool, number, string, array, object,
}
use factory_test.Host.{Host}
use factory_test.Files.{Result, ok, err}
use factory_test.Session.Types.{
  TestResult, pass, fail, NamedTestResult, SessionMetadata, EvidenceValue, TestEvidence, TestRecord,
  SessionState, emplace,
}
use factory_test.Session.Manager.{nonempty_or}

abbrev pub session_state_from_text : String → SessionState
session_state_from_text value =
    if str_eq value "in_progress"
    then SessionState.in_progress
    else if str_eq value "completed"
    then SessionState.completed
    else if str_eq value "abandoned"
    then SessionState.abandoned
    else SessionState.none

-- `none` for a null pointer.
abbrev pub test_result_from_text : Option String → TestResult
test_result_from_text none = fail
test_result_from_text (some value) = if str_eq value "PASS" then pass else fail

-- `text ? text : fallback`.
abbrev pub text_or : Option String → String → String
text_or none fallback = fallback
text_or (some text) fallback = text

module _ {D : Type 0} where
  abbrev pub as_string : Option (Json D) → Option String
  as_string (some (string s)) = some s
  as_string _ = none

  abbrev pub as_bool : Option (Json D) → Bool → Bool
  as_bool (some (bool b)) fallback = b
  as_bool _ fallback = fallback

  abbrev pub as_object : Option (Json D) → Bool
  as_object (some (object _)) = true
  as_object _ = false

pub record LoadedSession (D : Type 0) : Type 0 where
  pub state : SessionState
  pub id : String
  pub sequence_number : ℕ
  pub started_at : String
  pub updated_at : String
  pub completed_at : String
  pub current_test_id : String
  pub result_path : String
  pub metadata : SessionMetadata
  pub tests : List (TestRecord D)

module _ (h : Host) where
  open h use {Double, get_item, is_finite, is_nonneg, to_size, valueint_is}

  abbrev pub json_string : Json Double → String → Option String
  json_string root key = as_string (get_item root key)

  abbrev pub json_bool : Json Double → String → Bool → Bool
  json_bool root key fallback = as_bool (get_item root key) fallback

  abbrev pub as_size : Option (Json Double) → ℕ → ℕ
  as_size (some (number d)) fallback = if is_nonneg d then to_size d else fallback
  as_size _ fallback = fallback

  abbrev pub json_size : Json Double → String → ℕ → ℕ
  json_size root key fallback = as_size (get_item root key) fallback

  abbrev pub evidence_value : Json Double → Option (EvidenceValue Double)
  evidence_value (bool b) = some (EvidenceValue.boolean b)
  evidence_value (number d) = if is_finite d then some (EvidenceValue.number d) else none
  evidence_value (string s) = some (EvidenceValue.string s)
  evidence_value _ = none

  -- The loop of parse_evidence, on the map so far.
  unfoldable pub parse_fields : Fields Double → TestEvidence Double → Option (TestEvidence Double)
  parse_fields end evidence = some evidence
  parse_fields (field key child rest) evidence =
      if is_empty key then none else elim (evidence_value child) [
        | none ↦ none
        | some value ↦ parse_fields rest (emplace key value evidence)
      ]

  abbrev pub parse_evidence : Option (Json Double) → Option (TestEvidence Double)
  parse_evidence none = some []
  parse_evidence (some (object fields)) = parse_fields fields []
  parse_evidence (some _) = none

  abbrev pub parse_detail : Json Double → Option NamedTestResult
  parse_detail child = elim (json_string child "name") [
    | none ↦ none
    | some name ↦ elim (json_string child "result") [
      | none ↦ none
      | some result ↦
          if as_object (some child)
          then some (record { test_name = name; result = test_result_from_text (some result) })
          else none
    ]
  ]

  unfoldable pub parse_items : Items Double → Option (List NamedTestResult)
  parse_items nil = some []
  parse_items (cons child rest) = elim (parse_detail child) [
    | none ↦ none
    | some detail ↦ elim (parse_items rest) [ none ↦ none | some details ↦ some (detail ∷ details) ]
  ]

  abbrev pub parse_details : Option (Json Double) → Option (List NamedTestResult)
  parse_details none = some []
  parse_details (some (array items)) = parse_items items
  parse_details (some _) = none

  -- The record of a test, before its evidence and its details are read.
  abbrev pub test_read :
      Json Double → String → String → TestEvidence Double → List NamedTestResult → TestRecord Double
  test_read test id name evidence details = record {
    id = id;
    name = name;
    completed = json_bool test "completed" false;
    result =
        if json_bool test "completed" false
        then test_result_from_text (json_string test "result")
        else fail;
    attempted = json_bool test "attempted" false;
    attempt_count = json_size test "attempt_count" 0;
    attempt_started_at = text_or (json_string test "attempt_started_at") "";
    attempt_finished_at = text_or (json_string test "attempt_finished_at") "";
    completed_at = text_or (json_string test "completed_at") "";
    evidence = evidence;
    details = details;
  }

  abbrev pub with_evidence :
      Option (TestEvidence Double)
      → Option (List NamedTestResult)
      → (TestEvidence Double → List NamedTestResult → TestRecord Double)
      → Result (TestRecord Double)
  with_evidence (some evidence) (some details) test = ok (test evidence details)
  with_evidence _ _ test = err "session test evidence is invalid"

  unfoldable pub parse_test : Json Double → Result (TestRecord Double)
  parse_test test =
      if not (as_object (some test))
      then err "session test entry is invalid"
      else elim (json_string test "id") [
        | none ↦ err "session test identity is missing"
        | some id ↦ elim (json_string test "name") [
          | none ↦ err "session test identity is missing"
          | some name ↦
              with_evidence (parse_evidence (get_item test "evidence"))
                (parse_details (get_item test "details")) (test_read test id name)
        ]
      ]

  unfoldable pub parse_tests : Items Double → Result (List (TestRecord Double))
  parse_tests nil = ok []
  parse_tests (cons test rest) = elim (parse_test test) [
    | err message ↦ err message
    | ok t ↦ elim (parse_tests rest) [ err message ↦ err message | ok ts ↦ ok (t ∷ ts) ]
  ]

  -- The document around the tests that have been read.
  abbrev pub session_read :
      Json Double
      → Json Double
      → Json Double
      → String
      → String
      → String
      → List (TestRecord Double)
      → LoadedSession Double
  session_read root session device id state started_at tests = record {
    state = session_state_from_text state;
    id = id;
    sequence_number = json_size session "sequence_number" 0;
    started_at = started_at;
    updated_at = nonempty_or (text_or (json_string session "updated_at") "") started_at;
    completed_at = text_or (json_string session "completed_at") "";
    current_test_id = text_or (json_string session "current_test") "";
    result_path = text_or (json_string root "result_path") "";
    metadata = record {
      sku = text_or (json_string device "sku") "UNKNOWN";
      serial_number = text_or (json_string device "sn") "UNKNOWN";
      station = text_or (json_string device "station") "AUTO_TEST";
      firmware = text_or (json_string device "firmware") "UNKNOWN";
      commit = text_or (json_string device "commit") "UNKNOWN";
    };
    tests = tests;
  }

  abbrev pub is_supported : Option (Json Double) → Bool
  is_supported (some (number d)) = valueint_is d 2
  is_supported _ = false

  abbrev pub parse_identity :
      Json Double → Json Double → Json Double → Items Double → Result (LoadedSession Double)
  parse_identity root session device tests = elim (json_string session "id") [
    | none ↦ err "session JSON is missing identity fields"
    | some id ↦ elim (json_string session "state") [
      | none ↦ err "session JSON is missing identity fields"
      | some state ↦ elim (json_string session "started_at") [
        | none ↦ err "session JSON is missing identity fields"
        | some started_at ↦ elim (parse_tests tests) [
          | err message ↦ err message
          | ok ts ↦ ok (session_read root session device id state started_at ts)
        ]
      ]
    ]
  ]

  abbrev pub parse_sections :
      Json Double
      → Option (Json Double)
      → Option (Json Double)
      → Option (Json Double)
      → Result (LoadedSession Double)
  parse_sections root (some (object session)) (some (object device)) (some (array tests)) =
      parse_identity root (object session) (object device) tests
  parse_sections root _ _ _ = err "session JSON is missing required sections"

  abbrev pub parse_root : Option (Json Double) → Result (LoadedSession Double)
  parse_root (some (object fields)) =
      let root = object fields in
      if not (is_supported (get_item root "schema_version"))
      then err "unsupported session schema"
      else parse_sections root (get_item root "session") (get_item root "device")
          (get_item root "tests")
  parse_root _ = err "invalid session JSON"

  unfoldable pub parse_session_document : String → Result (LoadedSession Double)
  parse_session_document text = parse_root (h.parse text)
