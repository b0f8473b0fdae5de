-- ===== src/AppConfig/Validity.antt =====
-- src/model/app_config.cpp: what the readers let through, and the laws of the doubles that they rely on.
use factory_test.Common.{
  Bool, true, false, not, ◌&&◌, ◌||◌, ltb, Bool-cases, inl, inr, ℕ, ◌≤◌, String, is_empty, List,
  Option, none, some, if◌then◌else◌, ◌≡◌, refl, subst, arith,
}
use factory_test.Json.{Json, null, bool, number, string, array, object}
use factory_test.AppConfig.Types.{
  AppConfig, Ui, Network, Uart, Logging, ConfigHost, defaults, k_schema_version,
  k_min_log_segment_size, k_max_exact_json_integer, k_log_levels, k_languages,
}
use factory_test.AppConfig.Reading.{
  Notes, or_default, is_member, is_allowed, is_supported_in, is_supported_baud_rate, object_member,
  string_value, integer_value, read_string, read_int, read_size, read_ui, read_network,
  supported_uart, read_uart, ordered_logging, read_logging, read_factory, read_config,
}

pub record IsUi (ui : Ui) : Type 0 where
  pub language : is_member k_languages ui.language ≡ true
  pub volume : ui.key_click_volume_percent ≤ 100

pub record IsNetwork (network : Network) : Type 0 where
  pub host : is_empty network.iperf_host ≡ false
  pub port_low : 1 ≤ network.iperf_port
  pub port_high : network.iperf_port ≤ 65535

pub record IsLogging (logging : Logging) : Type 0 where
  pub level : is_member k_log_levels logging.level ≡ true
  pub segment : k_min_log_segment_size ≤ logging.max_segment_size_bytes
  pub order : logging.max_segment_size_bytes ≤ logging.max_directory_size_bytes
  pub directory : logging.max_directory_size_bytes ≤ k_max_exact_json_integer

-- The languages, levels and rates are among the known ones, the numbers in their ranges, a directory
-- holds a segment, and no text is empty.
pub record IsConfig (config : AppConfig) : Type 0 where
  pub ui : IsUi config.ui
  pub network : IsNetwork config.network
  pub rate : is_supported_baud_rate config.uart.baud_rate ≡ true
  pub logging : IsLogging config.logging
  pub station : is_empty config.factory.station_id ≡ false
  pub version : config.schema_version ≡ k_schema_version

-- IEEE 754 doubles: the comparisons with an integer of a whole number and the conversion back agree,
-- and every integer up to 2^53 - 1 is exact.
pub record DoubleLaws (h : ConfigHost) : Type 0 where
  pub in_range :
      (d : h.Double) (low high : ℕ)
      → high ≤ k_max_exact_json_integer
      → h.is_finite d ≡ true
      → h.is_whole d ≡ true
      → h.below d low ≡ false
      → h.above d high ≡ false
      → (low ≤ h.to_long d) × (h.to_long d ≤ high)
  pub finite_nat : (n : ℕ) → n ≤ k_max_exact_json_integer → h.is_finite (h.of_nat n) ≡ true
  pub whole_nat : (n : ℕ) → n ≤ k_max_exact_json_integer → h.is_whole (h.of_nat n) ≡ true
  pub below_nat :
      (n low : ℕ) → n ≤ k_max_exact_json_integer → low ≤ n → h.below (h.of_nat n) low ≡ false
  pub above_nat :
      (n high : ℕ) → n ≤ k_max_exact_json_integer → n ≤ high → h.above (h.of_nat n) high ≡ false
  pub long_nat : (n : ℕ) → n ≤ k_max_exact_json_integer → h.to_long (h.of_nat n) ≡ n

default-or :
    {A : Type 0} (P : A → Type 0) (o : Option A) (name : String) (fallback : A) (notes : Notes)
    → ((value : A) → o ≡ some value → P value)
    → P fallback
    → P (or_default o name fallback notes).0
default-or P none name fallback notes read f = f
default-or P (some value) name fallback notes read f = read value refl

if_none :
    {A : Type 0} (b : Bool) (a c : A)
    → (if b then none else some a) ≡ some c
    → (b ≡ false) × (a ≡ c)
if_none true a c e = absurd (let bad : none ≡ some c = e in cc)
if_none false a c e = (refl, cc)

if_some :
    {A : Type 0} (b : Bool) (a c : A) → (if b then some a else none) ≡ some c → (b ≡ true) × (a ≡ c)
if_some true a c e = (refl, cc)
if_some false a c e = absurd (let bad : none ≡ some c = e in cc)

not_and : (a b : Bool) → (not a && b) ≡ true → (a ≡ false) × (b ≡ true)
not_and true b e = absurd (let bad : false ≡ true = e in cc)
not_and false b e = (refl, e)

no_fault :
    (a b c d : Bool)
    → (not a || not b || c || d) ≡ false
    → (a ≡ true) × (b ≡ true) × (c ≡ false) × (d ≡ false)
no_fault false b c d e = absurd (let bad : true ≡ false = e in cc)
no_fault true false c d e = absurd (let bad : true ≡ false = e in cc)
no_fault true true true d e = absurd (let bad : true ≡ false = e in cc)
no_fault true true false d e = (refl, refl, refl, e)

supported_uart-rate :
    (uart : Uart) (notes : Notes)
    → is_supported_baud_rate (supported_uart (uart, notes)).0.baud_rate ≡ true
unfolding supported_uart is_supported_in
supported_uart-rate uart notes = elim (Bool-cases (is_supported_baud_rate uart.baud_rate)) [
  | inl known ↦ rw known known
  | inr unknown ↦ rw unknown refl
]

ordered_logging-IsLogging :
    (logging : Logging) (notes : Notes)
    → is_member k_log_levels logging.level ≡ true
    → k_min_log_segment_size ≤ logging.max_segment_size_bytes
    → logging.max_directory_size_bytes ≤ k_max_exact_json_integer
    → IsLogging (ordered_logging (logging, notes)).0
unfolding ordered_logging
ordered_logging-IsLogging logging notes level segment directory =
    elim (Bool-cases (ltb logging.max_directory_size_bytes logging.max_segment_size_bytes)) [
      | inl less ↦ rw less (record {
        level = level;
        segment = omega arith;
        order = omega arith;
        directory = omega arith;
      })
      | inr more ↦
          rw more (record {
            level = level;
            segment = segment;
            order = ground arith;
            directory = directory;
          })
    ]

module _ (h : ConfigHost) where
  string_value-is :
      (allowed : Option (List String)) (o : Option (Json h.Double)) (s : String)
      → string_value h allowed o ≡ some s
      → (is_empty s ≡ false) × (is_allowed allowed s ≡ true)
  unfolding string_value
  string_value-is allowed none s e = absurd (let bad : none ≡ some s = e in cc)
  string_value-is allowed (some (string t)) s e =
      let checked = if_some (not (is_empty t) && is_allowed allowed t) t s e in
      subst (λ u. (is_empty u ≡ false) × (is_allowed allowed u ≡ true)) checked.1
        (not_and (is_empty t) (is_allowed allowed t) checked.0)
  string_value-is allowed (some null) s e = absurd (let bad : none ≡ some s = e in cc)
  string_value-is allowed (some (bool _)) s e = absurd (let bad : none ≡ some s = e in cc)
  string_value-is allowed (some (number _)) s e = absurd (let bad : none ≡ some s = e in cc)
  string_value-is allowed (some (array _)) s e = absurd (let bad : none ≡ some s = e in cc)
  string_value-is allowed (some (object _)) s e = absurd (let bad : none ≡ some s = e in cc)

  module _ (laws : DoubleLaws h) where
    number-in_range :
        (d : h.Double) (low high n : ℕ)
        → high ≤ k_max_exact_json_integer
        → integer_value h (some (number d)) low high ≡ some n
        → (low ≤ n) × (n ≤ high)
    unfolding integer_value
    number-in_range d low high n exact e =
        let checked = if_none _ (h.to_long d) n e in
        let (finite, whole, above, below) = no_fault _ _ _ _ checked.0 in
        subst (λ m. (low ≤ m) × (m ≤ high)) checked.1
          (laws.in_range d low high exact finite whole above below)

    pub integer_value-in_range :
        (o : Option (Json h.Double)) (low high n : ℕ)
        → high ≤ k_max_exact_json_integer
        → integer_value h o low high ≡ some n
        → (low ≤ n) × (n ≤ high)
    unfolding integer_value
    integer_value-in_range (some (number d)) low high n exact e =
        number-in_range d low high n exact e
    integer_value-in_range none low high n exact e = absurd (let bad : none ≡ some n = e in cc)
    integer_value-in_range (some null) low high n exact e =
        absurd (let bad : none ≡ some n = e in cc)
    integer_value-in_range (some (bool _)) low high n exact e =
        absurd (let bad : none ≡ some n = e in cc)
    integer_value-in_range (some (string _)) low high n exact e =
        absurd (let bad : none ≡ some n = e in cc)
    integer_value-in_range (some (array _)) low high n exact e =
        absurd (let bad : none ≡ some n = e in cc)
    integer_value-in_range (some (object _)) low high n exact e =
        absurd (let bad : none ≡ some n = e in cc)

    read_string-is :
        (o : Option (Json h.Double)) (key name fallback : String) (allowed : Option (List String))
        (notes : Notes)
        → is_empty fallback ≡ false
        → is_allowed allowed fallback ≡ true
        → (is_empty (read_string h o key name fallback allowed notes).0 ≡ false)
          × (is_allowed allowed (read_string h o key name fallback allowed notes).0 ≡ true)
    unfolding read_string
    read_string-is o key name fallback allowed notes filled known =
        default-or (λ s. (is_empty s ≡ false) × (is_allowed allowed s ≡ true)) _ name fallback notes
          (string_value-is allowed (object_member h o key)) (filled, known)

    read_int-in_range :
        (o : Option (Json h.Double)) (key name : String) (fallback low high : ℕ) (notes : Notes)
        → high ≤ k_max_exact_json_integer
        → (low ≤ fallback) × (fallback ≤ high)
        → (low ≤ (read_int h o key name fallback low high notes).0)
          × ((read_int h o key name fallback low high notes).0 ≤ high)
    unfolding read_int
    read_int-in_range o key name fallback low high notes exact inside =
        default-or (λ n. (low ≤ n) × (n ≤ high)) _ name fallback notes
          (λ n. integer_value-in_range (object_member h o key) low high n exact) inside

    read_size-in_range :
        (o : Option (Json h.Double)) (key name : String) (fallback low : ℕ) (notes : Notes)
        → (low ≤ fallback) × (fallback ≤ k_max_exact_json_integer)
        → (low ≤ (read_size h o key name fallback low notes).0)
          × ((read_size h o key name fallback low notes).0 ≤ k_max_exact_json_integer)
    unfolding read_size
    read_size-in_range o key name fallback low notes inside =
        default-or (λ n. (low ≤ n) × (n ≤ k_max_exact_json_integer)) _ name fallback notes
          (λ n.
            integer_value-in_range (object_member h o key) low k_max_exact_json_integer n
              (omega arith))
          inside

    read_ui-IsUi : (o : Option (Json h.Double)) (notes : Notes) → IsUi (read_ui h o notes).0
    unfolding read_ui is_allowed is_member
    read_ui-IsUi o notes = record {
      language = (read_string-is o "language" "ui.language" "en" (some k_languages) _ refl refl).1;
      volume =
          (read_int-in_range o "key_click_volume_percent" "ui.key_click_volume_percent" 70 0 100 _
            (omega arith) (omega arith, omega arith)).1;
    }

    read_network-IsNetwork :
        (o : Option (Json h.Double)) (notes : Notes) → IsNetwork (read_network h o notes).0
    unfolding read_network is_allowed
    read_network-IsNetwork o notes =
        let port =
          read_int-in_range o "iperf_port" "network.iperf_port" 5201 1 65535 _ (omega arith)
            (omega arith, omega arith) in
        record {
          host =
              (read_string-is o "iperf_host" "network.iperf_host" "192.168.10.187" none notes refl
                refl).0;
          port_low = port.0;
          port_high = port.1;
        }

    read_logging-IsLogging :
        (o : Option (Json h.Double)) (notes : Notes) → IsLogging (read_logging h o notes).0
    unfolding read_logging is_allowed is_member
    read_logging-IsLogging o notes =
        let level =
          (read_string-is o "level" "logging.level" "debug" (some k_log_levels) notes refl
            refl).1 in
        let small : (k_min_log_segment_size ≤ defaults.logging.max_segment_size_bytes)
            × (defaults.logging.max_segment_size_bytes ≤ k_max_exact_json_integer) =
          (omega arith, omega arith) in
        let large : (k_min_log_segment_size ≤ defaults.logging.max_directory_size_bytes)
            × (defaults.logging.max_directory_size_bytes ≤ k_max_exact_json_integer) =
          (omega arith, omega arith) in
        let segment =
          read_size-in_range o "max_segment_size_bytes" "logging.max_segment_size_bytes"
            defaults.logging.max_segment_size_bytes k_min_log_segment_size _ small in
        let directory =
          read_size-in_range o "max_directory_size_bytes" "logging.max_directory_size_bytes"
            defaults.logging.max_directory_size_bytes k_min_log_segment_size _ large in
        ordered_logging-IsLogging _ _ level segment.0 directory.1

    -- What is read of any document is a valid configuration, when the version was right.
    pub read_config-IsConfig :
        (document : Json h.Double) (version : ℕ) (notes : Notes)
        → version ≡ k_schema_version
        → IsConfig (read_config h document version notes).0
    unfolding read_config read_uart read_factory is_allowed
    read_config-IsConfig document version notes right = record {
      ui = read_ui-IsUi _ notes;
      network = read_network-IsNetwork _ _;
      rate = supported_uart-rate _ _;
      logging = read_logging-IsLogging _ _;
      station = (read_string-is _ "station_id" "factory.station_id" "AUTO_TEST" none _ refl refl).0;
      version = right;
    }
