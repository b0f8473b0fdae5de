-- ===== src/AppConfig/Types.antt =====
-- src/model/app_config.h, the constants of src/model/app_config.cpp, and what these use and do not implement.
-- A volume, a port, a baud rate and a version are natural numbers: no negative one passes the reader.
use factory_test.Common.{Bool, true, ℕ, ◌*◌, String, List, [], ◌∷◌, Option}
use factory_test.Json.{Json}
use factory_test.Files.{Result}

pub record Ui : Type 0 where
  pub dark_mode : Bool
  pub language : String
  pub key_click_enabled : Bool
  pub key_click_volume_percent : ℕ

pub record Network : Type 0 where
  pub iperf_host : String
  pub iperf_port : ℕ

pub record Uart : Type 0 where
  pub baud_rate : ℕ

pub record Logging : Type 0 where
  pub level : String
  pub max_segment_size_bytes : ℕ
  pub max_directory_size_bytes : ℕ

pub record Factory : Type 0 where
  pub station_id : String

pub record AppConfig : Type 0 where
  pub ui : Ui
  pub network : Network
  pub uart : Uart
  pub logging : Logging
  pub factory : Factory
  pub schema_version : ℕ

abbrev pub k_schema_version : ℕ
k_schema_version = 1

-- AppConfig{}.
abbrev pub defaults : AppConfig
defaults = record {
  ui = record {
    dark_mode = true;
    language = "en";
    key_click_enabled = true;
    key_click_volume_percent = 70;
  };
  network = record { iperf_host = "192.168.10.187"; iperf_port = 5201 };
  uart = record { baud_rate = 9600 };
  logging = record {
    level = "debug";
    max_segment_size_bytes = 5 * 1024 * 1024;
    max_directory_size_bytes = 50 * 1024 * 1024;
  };
  factory = record { station_id = "AUTO_TEST" };
  schema_version = k_schema_version;
}

abbrev pub k_min_log_segment_size : ℕ
k_min_log_segment_size = 64 * 1024

abbrev pub k_max_exact_json_integer : ℕ
k_max_exact_json_integer = 9007199254740991

abbrev pub k_uart_baud_rates : List ℕ
k_uart_baud_rates = 9600 ∷ 19200 ∷ 38400 ∷ 57600 ∷ 115200 ∷ []

abbrev pub k_log_levels : List String
k_log_levels = "trace" ∷ "debug" ∷ "info" ∷ "warn" ∷ "error" ∷ "fatal" ∷ "off" ∷ []

abbrev pub k_languages : List String
k_languages = "en" ∷ "zh_CN" ∷ []

-- The doubles, cJSON and the system. A file's text is the list of its bytes, and a descriptor is the
-- path that it was opened at. A text is an error's message, and `false` a failure.
pub record ConfigHost : Type 1 where
  pub World : Type 0
  pub Double : Type 0
  -- double: the conversion from an integer, std::isfinite, whether floor changes nothing, < and > an
  -- integer, and the conversion to long long.
  pub of_nat : ℕ → Double
  pub is_finite : Double → Bool
  pub is_whole : Double → Bool
  pub below : Double → ℕ → Bool
  pub above : Double → ℕ → Bool
  pub to_long : Double → ℕ
  -- std::ostream's notations, and std::to_string.
  pub fixed : Double → List ℕ
  pub max_digits : Double → List ℕ
  pub to_string : ℕ → String
  -- cJSON_ParseWithLength, and the message after a text that is refused.
  pub parse : List ℕ → Option (Json Double)
  pub parse_error : List ℕ → String
  -- std::getenv, getpid, and std::filesystem::path's operator/ and parent_path.
  pub getenv : String → Option String
  pub process_id : ℕ
  pub join : String → String → String
  pub parent_path : String → String
  -- The file system. `write` answers how many bytes were taken, 0 also for an error; `open_new` opens
  -- with O_EXCL.
  pub exists : World → String → Result Bool
  pub contents : World → String → Option (List ℕ)
  pub create_directories : String → World → Option String × World
  pub permissions : String → World → Option String × World
  pub open_new : String → World → Option String × World
  pub open_directory : String → World → Bool × World
  pub write : String → List ℕ → World → ℕ × World
  pub sync : String → World → Bool × World
  pub close : String → World → World
  pub remove : String → World → World
  pub rename : String → String → World → Option String × World
