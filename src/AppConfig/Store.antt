-- ===== src/AppConfig/Store.antt =====
-- src/model/app_config.cpp: AppConfigStore, which loads and saves the configuration.
use factory_test.Common.{
  Bool, true, false, not, ℕ, String, is_empty, concat, List, [], ◌∷◌, ◌++◌, none, some,
  if◌then◌else◌,
}
use factory_test.Json.{Json, bool, number, string, object, object_of}
use factory_test.Serialization.{
  ParseResult, success, parse_json_file, number_to_string, output_value_to_pretty_string,
}
use factory_test.Files.{ok, err}
use factory_test.AppConfig.Types.{AppConfig, ConfigHost, defaults, k_schema_version}
use factory_test.AppConfig.Atomic.{State, write_atomic}
use factory_test.AppConfig.Reading.{Notes, object_member, integer_value, read_config}

pub record AppConfigStore : Type 0 where
  pub path : String
  pub config : AppConfig
  pub last_error : String
  pub diagnostics : List String

abbrev pub no_home : String
no_home = "HOME is not set; cannot resolve config path"

abbrev pub no_notes : Notes
no_notes = record { corrected = false; diagnostics = [] }

module _ (h : ConfigHost) where
  -- An empty path for a HOME that is not set.
  unfoldable pub default_config_path : String
  default_config_path = elim (h.getenv "HOME") [
    | none ↦ ""
    | some home ↦
        if is_empty home
        then ""
        else h.join (h.join (h.join home ".config") "factory-test") "config.json"
  ]

  -- AppConfigStore().
  abbrev pub new_store : AppConfigStore
  new_store = record {
    path = default_config_path;
    config = defaults;
    last_error = "";
    diagnostics = [];
  }

  abbrev pub config_to_output : AppConfig → Json h.Double
  config_to_output config = object (
      object_of (
        ("factory", object (object_of (("station_id", string config.factory.station_id) ∷ [])))
        ∷ (
          "logging",
          object (
              object_of (
                ("level", string config.logging.level)
                ∷ (
                  "max_directory_size_bytes",
                  number (h.of_nat config.logging.max_directory_size_bytes),
                )
                ∷ (
                  "max_segment_size_bytes",
                  number (h.of_nat config.logging.max_segment_size_bytes),
                )
                ∷ [])),
        )
        ∷ (
          "network",
          object (
              object_of (
                ("iperf_host", string config.network.iperf_host)
                ∷ ("iperf_port", number (h.of_nat config.network.iperf_port))
                ∷ [])),
        )
        ∷ ("schema_version", number (h.of_nat config.schema_version))
        ∷ ("uart", object (object_of (("baud_rate", number (h.of_nat config.uart.baud_rate)) ∷ [])))
        ∷ (
          "ui",
          object (
              object_of (
                ("dark_mode", bool config.ui.dark_mode)
                ∷ ("key_click_enabled", bool config.ui.key_click_enabled)
                ∷ ("key_click_volume_percent", number (h.of_nat config.ui.key_click_volume_percent))
                ∷ ("language", string config.ui.language)
                ∷ [])),
        )
        ∷ []))

  -- The text of the file.
  abbrev pub config_text : AppConfig → List ℕ
  config_text config =
      output_value_to_pretty_string (number_to_string h.is_finite h.is_whole h.fixed h.max_digits)
        (config_to_output config) 2
      ++ 10 ∷ []

  -- What a call answers, the store after it, and the state of everything else.
  abbrev pub Outcome : Type 0
  Outcome = Bool × AppConfigStore × State h

  abbrev pub failed : AppConfigStore → String → State h → Outcome
  failed store error s = (false, record store { last_error = error }, s)

  unfoldable pub save : AppConfigStore → State h → Outcome
  save store s =
      let (result, s') = write_atomic h store.path (config_text store.config) s in
      if is_empty store.path then failed store no_home s else elim result [
        | ok _ ↦ (true, record store { last_error = "" }, s')
        | err message ↦ failed store message s'
      ]

  abbrev pub note : AppConfigStore → String → AppConfigStore
  note store text = record store { diagnostics = store.diagnostics ++ text ∷ [] }

  -- The end of load: a store that needs no save, or one that is saved.
  unfoldable pub saved_or_noted : AppConfigStore → State h → Outcome
  saved_or_noted store s =
      let (success, store', s') = save store s in
      if success then (true, store', s') else (false, note store' store'.last_error, s')

  -- The document that has been parsed.
  unfoldable pub load_document : AppConfigStore → Json h.Double → State h → Outcome
  load_document store document s =
      elim (integer_value h (object_member h (some document) "schema_version") k_schema_version
        k_schema_version) [
          | none ↦
              (true, note store "unsupported or missing config schema_version; using defaults", s)
          | some version ↦
              let (config, notes) = read_config h document version no_notes in
              let store' = record store { config = config; diagnostics = notes.diagnostics } in
              let repaired = saved_or_noted store' s in
              if notes.corrected then repaired else (true, store', s)
        ]

  abbrev pub refused : AppConfigStore → String → AppConfigStore
  refused store error =
      note (record store { last_error = error })
        (concat error "; using defaults without overwriting the file")

  unfoldable pub load_value : AppConfigStore → Json h.Double → State h → Outcome
  load_value store (object fields) s = load_document store (object fields) s
  load_value store _ s = (true, refused store "config root must be a JSON object", s)

  unfoldable pub load_parsed : AppConfigStore → ParseResult h.Double → State h → Outcome
  load_parsed store parsed s =
      if not (success parsed)
      then (true, refused store parsed.error_message, s)
      else load_value store parsed.value s

  abbrev pub cleared : AppConfigStore → AppConfigStore
  cleared store = record { path = store.path; config = defaults; last_error = ""; diagnostics = [] }

  abbrev pub load_failed : AppConfigStore → String → State h → Outcome
  load_failed store error s = (false, note (record store { last_error = error }) error, s)

  unfoldable pub load_from : AppConfigStore → State h → Outcome
  load_from store s =
      let created = saved_or_noted store s in
      let parsed = parse_json_file h.parse h.parse_error (h.contents s.1) store.path in
      let loaded = load_parsed store parsed s in
      if is_empty store.path then load_failed store no_home s else elim (h.exists s.1 store.path) [
        | err message ↦ load_failed store (concat "failed to inspect config file: " message) s
        | ok exists ↦ if exists then loaded else created
      ]

  abbrev pub load : AppConfigStore → State h → Outcome
  load store s = load_from (cleared store) s
