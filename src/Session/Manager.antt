-- ===== src/Session/Manager.antt =====
-- src/model/test_session.cpp, SessionManager: each operation takes the session and the outside world
-- and replies with its result, the session after it and the world after it. Logging is left out.
use factory_test.Common.{
  Bool, true, false, not, ◌&&◌, ℕ, suc, ◌+◌, ◌%◌, String, str_eq, is_empty, List, [], ◌∷◌, map,
  Option, none, some, if◌then◌else◌,
}
use factory_test.Host.{Host}
use factory_test.Files.{Result, ok, err, write_text_file_atomic}
use factory_test.Session.Types.{
  fail, TestDefinition, TestRecord, SessionState, SessionManager, size_mod, is_in_progress,
}
use factory_test.Session.Document.{all_allocate, document, test_json, print_json, build_result_json}

module _ {D : Type 0} where
  -- The result of reset_: every field as it is declared.
  abbrev pub reset : SessionManager D
  reset = record {
    state = SessionState.none;
    session_id = "";
    sequence_number = 0;
    started_at = "";
    updated_at = "";
    completed_at = "";
    current_test_id = "";
    session_path = "";
    result_path = "";
    last_error = "";
    metadata = record {
      sku = "";
      serial_number = "";
      station = "AUTO_TEST";
      firmware = "";
      commit = "";
    };
    tests = [];
  }

  abbrev pub set_error : SessionManager D → String → SessionManager D
  set_error m message = record m { last_error = message }

  abbrev pub active : SessionManager D → Bool
  active m = is_in_progress m.state

  abbrev pub recoverable : SessionManager D → Bool
  recoverable m = active m && not (is_empty m.session_path)

  unfoldable pub find_test : String → List (TestRecord D) → Option (TestRecord D)
  find_test test_id [] = none
  find_test test_id (test ∷ tests) =
      if str_eq test.id test_id then some test else find_test test_id tests

  -- A write through the pointer that find_test_ returns.
  unfoldable pub update_test :
      String → (TestRecord D → TestRecord D) → List (TestRecord D) → List (TestRecord D)
  update_test test_id f [] = []
  update_test test_id f (test ∷ tests) =
      if str_eq test.id test_id then f test ∷ tests else test ∷ update_test test_id f tests

  unfoldable pub next_incomplete : List (TestRecord D) → ℕ
  next_incomplete [] = 0
  next_incomplete (test ∷ tests) = if not test.completed then 0 else suc (next_incomplete tests)

  abbrev pub next_incomplete_index : SessionManager D → ℕ
  next_incomplete_index m = next_incomplete m.tests

  -- The pointer that a test is reached through, null outside an active session.
  unfoldable pub active_test : SessionManager D → String → Option (TestRecord D)
  active_test m test_id = if active m then find_test test_id m.tests else none

  abbrev pub new_record : TestDefinition → TestRecord D
  new_record test = record {
    id = test.id;
    name = test.name;
    completed = false;
    result = fail;
    attempted = false;
    attempt_count = 0;
    attempt_started_at = "";
    attempt_finished_at = "";
    completed_at = "";
    evidence = [];
    details = [];
  }

abbrev pub nonempty_or : String → String → String
nonempty_or value fallback = if is_empty value then fallback else value

module _ (h : Host) where
  open h use {World, Double, now, iso_timestamp}

  pub record Reply : Type 0 where
    pub success : Bool
    pub session : SessionManager Double
    pub world : World

  abbrev pub reply : Bool → SessionManager Double → World → Reply
  reply b m w = record { success = b; session = m; world = w }

  abbrev pub now_iso_timestamp : World → String × World
  now_iso_timestamp w = let (moment, w') = now w in (iso_timestamp moment, w')

  -- The document with its tests, or the error that persist_ reports.
  unfoldable pub session_document : SessionManager Double → Result String
  session_document m =
      if not (h.allocates (document h m []))
      then err "failed to build session JSON"
      else if not (all_allocate h (map (test_json h) m.tests))
      then err "failed to build session test JSON"
      else ok (print_json h (document h m (map (test_json h) m.tests)) true)

  abbrev pub written : SessionManager Double → Result (Unit {0}) × World → Reply
  written m (ok _, w) = reply true (set_error m "") w
  written m (err message, w) =
      reply false
        (set_error m (if is_empty message then "failed to format session JSON" else message)) w

  abbrev pub write_document : SessionManager Double → Result String → World → Reply
  write_document m (err message) w = reply false (set_error m message) w
  write_document m (ok text) w =
      if is_empty text
      then reply false (set_error m "failed to format session JSON") w
      else written m (write_text_file_atomic h m.session_path text w)

  abbrev pub with_update_time : SessionManager Double → World → SessionManager Double × World
  with_update_time m w =
      if is_empty m.updated_at
      then (let (stamp, w') = now_iso_timestamp w in (record m { updated_at = stamp }, w'))
      else (m, w)

  unfoldable pub persist : SessionManager Double → World → Reply
  persist m w =
      if is_empty m.session_path
      then reply false (set_error m "session path is empty") w
      else (let (m', w') = with_update_time m w in write_document m' (session_document m') w')

  abbrev pub result_written : SessionManager Double → Result (Unit {0}) × World → Reply
  result_written m (ok _, w) = reply true m w
  result_written m (err message, w) = reply false (set_error m message) w

  unfoldable pub write_result : SessionManager Double → World → Reply
  write_result m w =
      let text = build_result_json h m true in
      if is_empty text
      then reply false (set_error m "failed to build protocol result JSON") w
      else result_written m (write_text_file_atomic h m.result_path text w)

  -- `if (!persist_()) { restore; return false; } return true;`
  unfoldable pub or_restore : Reply → (SessionManager Double → SessionManager Double) → Reply
  or_restore r restore = if r.success then r else reply false (restore r.session) r.world

  unfoldable pub abandon : SessionManager Double → World → Reply
  abandon m w =
      if not (active m)
      then reply true m w
      else (let (stamp, w') = now_iso_timestamp w in
          or_restore
            (persist
              (record m {
                state = SessionState.abandoned;
                current_test_id = "";
                updated_at = stamp;
              })
              w')
            (λ m'. record m' {
              state = m.state;
              current_test_id = m.current_test_id;
              updated_at = m.updated_at;
            }))

  unfoldable pub set_current_test : SessionManager Double → String → World → Reply
  set_current_test m test_id w = elim (active_test m test_id) [
    | none ↦ reply false (set_error m "cannot select a test outside an active session") w
    | some _ ↦
        if str_eq m.current_test_id test_id
        then reply true m w
        else (let (stamp, w') = now_iso_timestamp w in
            or_restore (persist (record m { current_test_id = test_id; updated_at = stamp }) w')
              (λ m'. record m' { current_test_id = m.current_test_id; updated_at = m.updated_at }))
  ]

  -- The record of a test that begins another attempt.
  abbrev pub attempt_begun : String → TestRecord Double → TestRecord Double
  attempt_begun time test = record test {
    attempted = true;
    attempt_count = (test.attempt_count + 1) % size_mod;
    attempt_started_at = time;
    attempt_finished_at = "";
    evidence = [];
  }

  unfoldable pub begin_test : SessionManager Double → String → World → Reply
  begin_test m test_id w = elim (active_test m test_id) [
    | none ↦ reply false (set_error m "cannot begin an unavailable test") w
    | some test ↦
        if test.completed
        then reply false (set_error m "cannot begin an unavailable test") w
        else (let (time, w') = now_iso_timestamp w in
            or_restore
              (persist
                (record m {
                  current_test_id = test_id;
                  tests = update_test test_id (attempt_begun time) m.tests;
                  updated_at = time;
                })
                w')
              (λ m'. record m' {
                tests = update_test test_id (λ _. test) m'.tests;
                current_test_id = m.current_test_id;
                updated_at = m.updated_at;
              }))
  ]
