-- ===== src/Session/Latest.antt =====
-- src/model/test_session.cpp, SessionManager::load_latest_recoverable: the newest session file is read
-- and taken up if it is of a session in progress on the tests that are expected.
use factory_test.Common.{
  Bool, true, false, not, ◌&&◌, ◌||◌, ◌==◌, ℕ, String, str_eq, str_eq_iff, str_lt, is_empty, List,
  [], ◌∷◌, ltb, Option, none, some, ◌≡◌, sym, ap, ◌∙◌, inl, inr, Bool-cases, Option-cases,
  if◌then◌else◌, arith,
}
use factory_test.Host.{Host, Entry}
use factory_test.Files.{Result, ok, err}
use factory_test.Session.Types.{TestDefinition, TestRecord, SessionManager, is_in_progress}
use factory_test.Session.Manager.{Reply, reply, reset}
use factory_test.Session.Start.{
  k_session_suffix, has_suffix, default_session_directory, result_path_for_session,
}
use factory_test.Session.Load.{LoadedSession, parse_session_document}
use factory_test.Session.Soundness.{ids}
use factory_test.Session.Plans.{plan_ids}

-- The write time of an entry that is a session file.
abbrev pub candidate_time : Option Bool → Bool → Option ℕ → Option ℕ
candidate_time (some true) true time = time
candidate_time _ _ time = none

unfoldable pub candidate : Entry → Option ℕ
candidate entry =
    candidate_time entry.is_regular_file (has_suffix entry.filename k_session_suffix)
      entry.last_write_time

abbrev pub is_unreadable : Option Bool → Bool
is_unreadable none = true
is_unreadable (some _) = false

abbrev pub newer : ℕ → Entry → Option (Entry × ℕ) → Bool
newer time entry none = true
newer time entry (some (latest, latest_time)) =
    ltb latest_time time || (time == latest_time && str_lt latest.filename entry.filename)

abbrev pub choose : Entry → Option ℕ → Option (Entry × ℕ) → Option (Entry × ℕ)
choose entry none latest = latest
choose entry (some time) latest = if newer time entry latest then some (entry, time) else latest

-- The loop over the directory. The flag is `ec`: once a file type cannot be read it stays set, and
-- the entries that follow are passed over.
unfoldable pub latest_entry : List Entry → Bool → Option (Entry × ℕ) → Option (Entry × ℕ)
latest_entry [] ec latest = latest
latest_entry (entry ∷ entries) ec latest =
    let failed = ec || is_unreadable entry.is_regular_file in
    latest_entry entries failed (if failed then latest else choose entry (candidate entry) latest)

module _ {D : Type 0} where
  -- The tests with the names that are expected, if their ids are those expected.
  unfoldable pub adopt : List (TestRecord D) → List TestDefinition → Option (List (TestRecord D))
  adopt [] [] = some []
  adopt (test ∷ tests) (expected ∷ rest) =
      let others = adopt tests rest in
      if str_eq test.id expected.id
      then elim others [ none ↦ none | some ts ↦ some (record test { name = expected.name } ∷ ts) ]
      else none
  adopt _ _ = none

  pub adopt-ids :
      (tests : List (TestRecord D)) (expected : List TestDefinition) {adopted : List (TestRecord D)}
      → adopt tests expected ≡ some adopted
      → ids adopted ≡ plan_ids expected
  unfolding adopt
  adopt-ids [] [] {adopted} e = ap ids {x = adopted} {y = []} (ground arith)
  adopt-ids [] (x ∷ expected) e = absurd (cc)
  adopt-ids (t ∷ tests) [] e = absurd (cc)
  adopt-ids (t ∷ tests) (x ∷ expected) {adopted} e = elim (Bool-cases (str_eq t.id x.id)) [
    | inl same ↦ elim (Option-cases (adopt tests expected)) [
      | inl nothing ↦ absurd (ground arith)
      | inr (ts, found) ↦
          let eq : record t { name = x.name } ∷ ts ≡ adopted = ground arith in
          ap ids (sym eq)
          ∙ (ap (◌∷◌ t.id) (adopt-ids tests expected {adopted = ts} found)
              ∙ ap (λ id. id ∷ plan_ids expected) ((str_eq_iff t.id x.id).0 same))
    ]
    | inr other ↦ absurd (ground arith)
  ]

module _ (h : Host) where
  open h use {World, Double}

  abbrev pub read_text_file : String → World → String
  read_text_file path w = elim (h.contents w path) [ none ↦ "" | some text ↦ text ]

  abbrev pub resumed :
      Entry → LoadedSession Double → List (TestRecord Double) → SessionManager Double
  resumed entry loaded tests = record {
    state = loaded.state;
    session_id = loaded.id;
    sequence_number = loaded.sequence_number;
    started_at = loaded.started_at;
    updated_at = loaded.updated_at;
    completed_at = loaded.completed_at;
    current_test_id = loaded.current_test_id;
    session_path = entry.path;
    result_path =
        if is_empty loaded.result_path
        then result_path_for_session h entry.path
        else loaded.result_path;
    last_error = "";
    metadata = loaded.metadata;
    tests = tests;
  }

  abbrev pub resume_tests :
      Entry → World → LoadedSession Double → Option (List (TestRecord Double)) → Reply h
  resume_tests entry w loaded none = reply h false reset w
  resume_tests entry w loaded (some tests) = reply h true (resumed entry loaded tests) w

  abbrev pub resume : List TestDefinition → Entry → World → Result (LoadedSession Double) → Reply h
  resume expected entry w (err message) = reply h false reset w
  resume expected entry w (ok loaded) =
      if not (is_in_progress loaded.state)
      then reply h false reset w
      else resume_tests entry w loaded (adopt loaded.tests expected)

  abbrev pub resume_latest : List TestDefinition → World → Option (Entry × ℕ) → Reply h
  resume_latest expected w none = reply h false reset w
  resume_latest expected w (some (entry, _)) =
      let text = read_text_file entry.path w in
      if is_empty text
      then reply h false reset w
      else resume expected entry w (parse_session_document h text)

  unfoldable pub load_latest_recoverable : List TestDefinition → World → Reply h
  load_latest_recoverable expected w =
      if not (h.is_directory w (default_session_directory h))
      then reply h false reset w
      else resume_latest expected w
          (latest_entry (h.entries w (default_session_directory h)) false none)
