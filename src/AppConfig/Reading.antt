-- ===== src/AppConfig/Reading.antt =====
-- src/model/app_config.cpp: the readers of one field, which fall back to a default and note that they did.
-- `Notes` are what the readers change by reference: `corrected` and `diagnostics`.
use factory_test.Common.{
  Bool, true, false, not, ◌&&◌, ◌||◌, ◌==◌, ltb, ℕ, String, str_eq, is_empty, concat, List, [], ◌∷◌,
  ◌++◌, Option, none, some, if◌then◌else◌,
}
use factory_test.Json.{Json, bool, number, string, object, find_field}
use factory_test.AppConfig.Types.{
  AppConfig, Ui, Network, Uart, Logging, Factory, ConfigHost, defaults, k_min_log_segment_size,
  k_max_exact_json_integer, k_uart_baud_rates, k_log_levels, k_languages,
}

pub record Notes : Type 0 where
  pub corrected : Bool
  pub diagnostics : List String

abbrev pub use_default : String → Notes → Notes
use_default name notes = record {
  corrected = true;
  diagnostics =
      notes.diagnostics
      ++ concat "config field '" (concat name "' is missing or invalid; using default") ∷ [];
}

-- A value that is there is used, and else the default.
abbrev pub or_default {ℓ} : {A : Type ℓ} → Option A → String → A → Notes → A × Notes
or_default (some value) name fallback notes = (value, notes)
or_default none name fallback notes = (fallback, use_default name notes)

-- std::set::find, for a set that is given or not.
unfoldable pub is_member : List String → String → Bool
is_member [] s = false
is_member (t ∷ ts) s = str_eq t s || is_member ts s

unfoldable pub is_allowed : Option (List String) → String → Bool
is_allowed none s = true
is_allowed (some allowed) s = is_member allowed s

unfoldable pub is_supported_in : List ℕ → ℕ → Bool
is_supported_in [] baud_rate = false
is_supported_in (rate ∷ rates) baud_rate = (rate == baud_rate) || is_supported_in rates baud_rate

abbrev pub is_supported_baud_rate : ℕ → Bool
is_supported_baud_rate baud_rate = is_supported_in k_uart_baud_rates baud_rate

unfoldable pub supported_uart : Uart × Notes → Uart × Notes
supported_uart (uart, notes) =
    if not (is_supported_baud_rate uart.baud_rate)
    then (defaults.uart, use_default "uart.baud_rate" notes)
    else (uart, notes)

unfoldable pub ordered_logging : Logging × Notes → Logging × Notes
ordered_logging (logging, notes) =
    if ltb logging.max_directory_size_bytes logging.max_segment_size_bytes
    then (
      record {
        level = logging.level;
        max_segment_size_bytes = defaults.logging.max_segment_size_bytes;
        max_directory_size_bytes = defaults.logging.max_directory_size_bytes;
      },
      record {
        corrected = true;
        diagnostics =
            notes.diagnostics
            ++ concat "logging.max_directory_size_bytes must be at least "
                "max_segment_size_bytes; using defaults"
              ∷ [];
      },
    )
    else (logging, notes)

module _ (h : ConfigHost) where
  -- A null pointer is `none`.
  unfoldable pub object_member : Option (Json h.Double) → String → Option (Json h.Double)
  object_member (some (object fields)) key = find_field key fields
  object_member _ key = none

  unfoldable pub bool_value : Option (Json h.Double) → Option Bool
  bool_value (some (bool b)) = some b
  bool_value _ = none

  unfoldable pub string_value : Option (List String) → Option (Json h.Double) → Option String
  string_value allowed (some (string s)) =
      if not (is_empty s) && is_allowed allowed s then some s else none
  string_value allowed _ = none

  unfoldable pub integer_value : Option (Json h.Double) → ℕ → ℕ → Option ℕ
  integer_value (some (number d)) minimum maximum =
      if not (h.is_finite d) || not (h.is_whole d) || h.below d minimum || h.above d maximum
      then none
      else some (h.to_long d)
  integer_value _ minimum maximum = none

  unfoldable pub read_bool : Option (Json h.Double) → String → String → Bool → Notes → Bool × Notes
  read_bool o key name fallback notes =
      or_default (bool_value (object_member o key)) name fallback notes

  unfoldable pub read_string :
      Option (Json h.Double)
      → String
      → String
      → String
      → Option (List String)
      → Notes
      → String × Notes
  read_string o key name fallback allowed notes =
      or_default (string_value allowed (object_member o key)) name fallback notes

  unfoldable pub read_int : Option (Json h.Double) → String → String → ℕ → ℕ → ℕ → Notes → ℕ × Notes
  read_int o key name fallback minimum maximum notes =
      or_default (integer_value (object_member o key) minimum maximum) name fallback notes

  unfoldable pub read_size : Option (Json h.Double) → String → String → ℕ → ℕ → Notes → ℕ × Notes
  read_size o key name fallback minimum notes =
      or_default (integer_value (object_member o key) minimum k_max_exact_json_integer) name
        fallback notes

  -- The parts of AppConfigStore::load, one for each object of the document.
  unfoldable pub read_ui : Option (Json h.Double) → Notes → Ui × Notes
  read_ui ui n0 =
      let default = defaults.ui in
      let (dark_mode, n1) = read_bool ui "dark_mode" "ui.dark_mode" default.dark_mode n0 in
      let (language, n2) =
        read_string ui "language" "ui.language" default.language (some k_languages) n1 in
      let (enabled, n3) =
        read_bool ui "key_click_enabled" "ui.key_click_enabled" default.key_click_enabled n2 in
      let (volume, n4) =
        read_int ui "key_click_volume_percent" "ui.key_click_volume_percent"
          default.key_click_volume_percent 0 100 n3 in
      (
        record {
          dark_mode = dark_mode;
          language = language;
          key_click_enabled = enabled;
          key_click_volume_percent = volume;
        },
        n4,
      )

  unfoldable pub read_network : Option (Json h.Double) → Notes → Network × Notes
  read_network network n0 =
      let default = defaults.network in
      let (host, n1) =
        read_string network "iperf_host" "network.iperf_host" default.iperf_host none n0 in
      let (port, n2) =
        read_int network "iperf_port" "network.iperf_port" default.iperf_port 1 65535 n1 in
      (record { iperf_host = host; iperf_port = port }, n2)

  unfoldable pub read_uart : Option (Json h.Double) → Notes → Uart × Notes
  read_uart uart n0 =
      let (rate, n1) =
        read_int uart "baud_rate" "uart.baud_rate" defaults.uart.baud_rate 1 1000000 n0 in
      supported_uart (record { baud_rate = rate }, n1)

  unfoldable pub read_logging : Option (Json h.Double) → Notes → Logging × Notes
  read_logging logging n0 =
      let default = defaults.logging in
      let (level, n1) =
        read_string logging "level" "logging.level" default.level (some k_log_levels) n0 in
      let (segment, n2) =
        read_size logging "max_segment_size_bytes" "logging.max_segment_size_bytes"
          default.max_segment_size_bytes k_min_log_segment_size n1 in
      let (directory, n3) =
        read_size logging "max_directory_size_bytes" "logging.max_directory_size_bytes"
          default.max_directory_size_bytes k_min_log_segment_size n2 in
      ordered_logging (
        record {
          level = level;
          max_segment_size_bytes = segment;
          max_directory_size_bytes = directory;
        },
        n3,
      )

  unfoldable pub read_factory : Option (Json h.Double) → Notes → Factory × Notes
  read_factory factory n0 =
      let (station_id, n1) =
        read_string factory "station_id" "factory.station_id" defaults.factory.station_id none n0 in
      (record { station_id = station_id }, n1)

  -- All of them, of a document whose version is the given one.
  unfoldable pub read_config : Json h.Double → ℕ → Notes → AppConfig × Notes
  read_config document version n0 =
      let (ui, n1) = read_ui (object_member (some document) "ui") n0 in
      let (network, n2) = read_network (object_member (some document) "network") n1 in
      let (uart, n3) = read_uart (object_member (some document) "uart") n2 in
      let (logging, n4) = read_logging (object_member (some document) "logging") n3 in
      let (factory, n5) = read_factory (object_member (some document) "factory") n4 in
      (
        record {
          ui = ui;
          network = network;
          uart = uart;
          logging = logging;
          factory = factory;
          schema_version = version;
        },
        n5,
      )
