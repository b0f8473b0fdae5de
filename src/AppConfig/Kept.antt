-- ===== src/AppConfig/Kept.antt =====
-- src/model/app_config.cpp: the readers read a valid configuration back from the document that is made of it.
use factory_test.Common.{
  true, false, ltb, Bool-cases, inl, inr, ℕ, ◌≤◌, String, str_eq_iff, is_empty, List, Option, none,
  some, ◌≡◌, refl, sym, ap, subst, ◌∙◌, arith,
}
use factory_test.Json.{number, string}
use factory_test.Serialization.{output_value_from_json, items_from_json, fields_from_json, emplace}
use factory_test.AppConfig.Types.{
  AppConfig, ConfigHost, k_schema_version, k_min_log_segment_size, k_max_exact_json_integer,
  k_log_levels, k_languages,
}
use factory_test.AppConfig.Reading.{
  Notes, is_member, is_allowed, is_supported_in, is_supported_baud_rate, object_member, bool_value,
  string_value, integer_value, read_bool, read_string, read_int, read_size, read_ui, read_network,
  supported_uart, read_uart, ordered_logging, read_logging, read_factory, read_config,
}
use factory_test.AppConfig.Store.{config_to_output}
use factory_test.AppConfig.Validity.{IsUi, IsNetwork, IsLogging, IsConfig, DoubleLaws}

-- A known text is not empty when the set does not hold the empty text.
member-filled :
    (allowed : List String) (s : String)
    → is_member allowed "" ≡ false
    → is_member allowed s ≡ true
    → is_empty s ≡ false
member-filled allowed s unknown known = elim (Bool-cases (is_empty s)) [
  | inl empty ↦ absurd (
      let bad : false ≡ true =
        sym unknown ∙ subst (λ t. is_member allowed t ≡ true) ((str_eq_iff s "").0 empty) known in
      cc)
  | inr filled ↦ filled
]

language-filled : (s : String) → is_member k_languages s ≡ true → is_empty s ≡ false
unfolding is_member
language-filled s = member-filled k_languages s refl

level-filled : (s : String) → is_member k_log_levels s ≡ true → is_empty s ≡ false
unfolding is_member
level-filled s = member-filled k_log_levels s refl

-- A rate that is supported is among those that the reader lets through.
rate-in_range : (rate : ℕ) → is_supported_baud_rate rate ≡ true → (1 ≤ rate) × (rate ≤ 1000000)
unfolding is_supported_in
rate-in_range rate known = (ground arith, ground arith)

module _ (h : ConfigHost) (laws : DoubleLaws h) where
  -- A number in the range, as it is printed, is read back.
  integer_value-number :
      (n low high : ℕ)
      → n ≤ k_max_exact_json_integer
      → low ≤ n
      → n ≤ high
      → integer_value h (some (number (h.of_nat n))) low high ≡ some n
  unfolding integer_value
  integer_value-number n low high exact above below =
      rw
        (
          laws.finite_nat n exact,
          laws.whole_nat n exact,
          laws.below_nat n low exact above,
          laws.above_nat n high exact below,
        )
        (ap some (laws.long_nat n exact))

  string_value-string :
      (allowed : Option (List String)) (s : String)
      → is_empty s ≡ false
      → is_allowed allowed s ≡ true
      → string_value h allowed (some (string s)) ≡ some s
  unfolding string_value
  string_value-string allowed s filled known = rw (filled, known) refl

  -- The document's keys are in order, so that a copy of it is the same.
  pub config_to_output-from_json :
      (config : AppConfig)
      → output_value_from_json (config_to_output h config) ≡ config_to_output h config
  unfolding output_value_from_json items_from_json fields_from_json emplace
  config_to_output-from_json config = refl

  read_ui-kept :
      (config : AppConfig) (notes : Notes)
      → IsUi config.ui
      → read_ui h (object_member h (some (config_to_output h config)) "ui") notes
        ≡ (config.ui, notes)
  unfolding read_ui object_member read_bool read_string read_int bool_value is_allowed
  read_ui-kept config notes valid =
      let language =
        string_value-string (some k_languages) config.ui.language
          (language-filled config.ui.language valid.language) valid.language in
      let exact : config.ui.key_click_volume_percent ≤ k_max_exact_json_integer =
        omega (arith, valid.volume) in
      let volume =
        integer_value-number config.ui.key_click_volume_percent 0 100 exact (omega arith)
          valid.volume in
      rw (language, volume) refl

  read_network-kept :
      (config : AppConfig) (notes : Notes)
      → IsNetwork config.network
      → read_network h (object_member h (some (config_to_output h config)) "network") notes
        ≡ (config.network, notes)
  unfolding read_network object_member read_string read_int is_allowed
  read_network-kept config notes valid =
      let host = string_value-string none config.network.iperf_host valid.host refl in
      let exact : config.network.iperf_port ≤ k_max_exact_json_integer =
        omega (arith, valid.port_high) in
      let port =
        integer_value-number config.network.iperf_port 1 65535 exact valid.port_low
          valid.port_high in
      rw (host, port) refl

  read_uart-kept :
      (config : AppConfig) (notes : Notes)
      → is_supported_baud_rate config.uart.baud_rate ≡ true
      → read_uart h (object_member h (some (config_to_output h config)) "uart") notes
        ≡ (config.uart, notes)
  unfolding read_uart object_member read_int supported_uart
  read_uart-kept config notes known =
      let (low, high) = rate-in_range config.uart.baud_rate known in
      let exact : config.uart.baud_rate ≤ k_max_exact_json_integer = omega (arith, high) in
      let rate = integer_value-number config.uart.baud_rate 1 1000000 exact low high in
      rw (rate, known) refl

  read_logging-kept :
      (config : AppConfig) (notes : Notes)
      → IsLogging config.logging
      → read_logging h (object_member h (some (config_to_output h config)) "logging") notes
        ≡ (config.logging, notes)
  unfolding read_logging object_member read_string read_size ordered_logging is_allowed
  read_logging-kept config notes valid =
      let level =
        string_value-string (some k_log_levels) config.logging.level
          (level-filled config.logging.level valid.level) valid.level in
      let exact : config.logging.max_segment_size_bytes ≤ k_max_exact_json_integer =
        omega (arith, valid.order, valid.directory) in
      let large : k_min_log_segment_size ≤ config.logging.max_directory_size_bytes =
        omega (arith, valid.order, valid.segment) in
      let segment =
        integer_value-number config.logging.max_segment_size_bytes k_min_log_segment_size
          k_max_exact_json_integer exact valid.segment exact in
      let directory =
        integer_value-number config.logging.max_directory_size_bytes k_min_log_segment_size
          k_max_exact_json_integer valid.directory large valid.directory in
      let order : ltb config.logging.max_directory_size_bytes config.logging.max_segment_size_bytes
          ≡ false =
        ground (arith, valid.order) in
      rw (level, segment, directory, order) refl

  read_factory-kept :
      (config : AppConfig) (notes : Notes)
      → is_empty config.factory.station_id ≡ false
      → read_factory h (object_member h (some (config_to_output h config)) "factory") notes
        ≡ (config.factory, notes)
  unfolding read_factory object_member read_string is_allowed
  read_factory-kept config notes filled =
      rw (string_value-string none config.factory.station_id filled refl) refl

  pub schema_version-kept :
      (config : AppConfig)
      → IsConfig config
      → integer_value h
          (object_member h (some (config_to_output h config)) "schema_version")
          k_schema_version
          k_schema_version
        ≡ some config.schema_version
  unfolding object_member
  schema_version-kept config valid =
      let one : config.schema_version ≡ 1 = valid.version in
      integer_value-number config.schema_version k_schema_version k_schema_version
        (omega (arith, one)) (omega (arith, one)) (omega (arith, one))

  -- The document of a valid configuration is read back as it, and nothing is noted.
  pub read_config-config_to_output :
      (config : AppConfig) (notes : Notes)
      → IsConfig config
      → read_config h (config_to_output h config) config.schema_version notes ≡ (config, notes)
  unfolding read_config
  read_config-config_to_output config notes valid =
      rw
        (
          read_ui-kept config notes valid.ui,
          read_network-kept config notes valid.network,
          read_uart-kept config notes valid.rate,
          read_logging-kept config notes valid.logging,
          read_factory-kept config notes valid.station,
        )
        refl
