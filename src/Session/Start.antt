-- ===== src/Session/Start.antt =====
-- src/model/test_session.cpp, SessionManager::start_new and what it uses.
use Prim.Native.String.{len, slice}
use factory_test.Common.{
  Bool, true, false, not, ◌&&◌, ◌||◌, ◌-◌, String, concat, str_eq, is_empty, List, [], ◌∷◌, map,
  ltb, leb, Option, none, some, if◌then◌else◌,
}
use factory_test.Host.{Host}
use factory_test.Session.Types.{
  TestDefinition, SessionMetadata, SessionState, SessionManager, is_nil,
}
use factory_test.Session.Manager.{
  Reply, reply, reset, set_error, active, new_record, nonempty_or, persist, abandon,
}

abbrev pub k_session_suffix : String
k_session_suffix = ".session.json"

abbrev pub k_result_suffix : String
k_result_suffix = ".result.json"

unfoldable pub has_suffix : String → String → Bool
has_suffix value suffix =
    leb (len suffix) (len value) && str_eq (slice value (len value - len suffix) (len value)) suffix

-- The first eight bytes of a commit's name.
unfoldable pub short_commit : String → String
short_commit value =
    let text = nonempty_or value "UNKNOWN" in if ltb 8 (len text) then slice text 0 8 else text

abbrev pub contains : String → List String → Bool
contains id [] = false
contains id (seen ∷ ids) = str_eq seen id || contains id ids

-- The loop over the test plan, on the ids that it has seen.
unfoldable pub is_valid_plan : List TestDefinition → List String → Bool
is_valid_plan [] seen = true
is_valid_plan (test ∷ tests) seen =
    not (is_empty test.id)
    && (not (is_empty test.name)
        && (not (contains test.id seen) && is_valid_plan tests (test.id ∷ seen)))

module _ (h : Host) where
  open h use {
    World, Double, now, iso_timestamp, session_timestamp, epoch_milliseconds, getenv, join,
  }

  abbrev pub nonempty_env : String → Option String
  nonempty_env name = elim (getenv name) [
    | none ↦ none
    | some value ↦ if is_empty value then none else some value
  ]

  unfoldable pub default_session_directory : String
  default_session_directory = elim (nonempty_env "FACTORY_TEST_SESSION_DIR") [
    | some configured ↦ configured
    | none ↦ elim (nonempty_env "XDG_STATE_HOME") [
      | some state_home ↦ join (join state_home "factory-test") "sessions"
      | none ↦ elim (nonempty_env "HOME") [
        | some user_home ↦
            join (join (join (join user_home ".local") "state") "factory-test") "sessions"
        | none ↦ join (join "/tmp" "factory-test") "sessions"
      ]
    ]
  ]

  unfoldable pub result_path_for_session : String → String
  result_path_for_session session_path =
      let name = h.filename session_path in
      let stem =
        if has_suffix name k_session_suffix
        then slice name 0 (len name - len k_session_suffix)
        else name in
      join (h.parent_path session_path) (concat stem k_result_suffix)

  abbrev pub filled_metadata : SessionMetadata → SessionMetadata
  filled_metadata metadata = record {
    sku = nonempty_or metadata.sku "UNKNOWN";
    serial_number = nonempty_or metadata.serial_number "UNKNOWN";
    station = nonempty_or metadata.station "AUTO_TEST";
    firmware = nonempty_or metadata.firmware "UNKNOWN";
    commit = short_commit metadata.commit;
  }

  -- The session that start_new sets up at an instant, before it is written.
  abbrev pub new_session : List TestDefinition → SessionMetadata → h.Moment → SessionManager Double
  new_session tests metadata moment =
      let id = concat "factorytest-" (session_timestamp moment) in
      let path = join default_session_directory (concat id k_session_suffix) in
      record {
        state = SessionState.in_progress;
        session_id = id;
        sequence_number = epoch_milliseconds moment;
        started_at = iso_timestamp moment;
        updated_at = iso_timestamp moment;
        completed_at = "";
        current_test_id = "";
        session_path = path;
        result_path = result_path_for_session path;
        last_error = "";
        metadata = filled_metadata metadata;
        tests = map new_record tests;
      }

  -- After the previous session is out of the way.
  unfoldable pub open_session : List TestDefinition → SessionMetadata → World → Reply h
  open_session tests metadata w =
      let (moment, w') = now w in
      let r = persist h (new_session tests metadata moment) w' in
      if r.success then r else reply h false (set_error reset r.session.last_error) r.world

  unfoldable pub start_new :
      SessionManager Double → List TestDefinition → SessionMetadata → World → Reply h
  start_new m tests metadata w =
      let m₁ = set_error m "" in
      if is_nil tests
      then reply h false (set_error m "test plan is empty") w
      else if not (is_valid_plan tests [])
      then reply h false (set_error m "test plan contains an invalid or duplicate id") w
      else if active m
      then (let r = abandon h m₁ w in if r.success then open_session tests metadata r.world else r)
      else open_session tests metadata w
