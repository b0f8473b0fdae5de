-- ===== src/StartMenu.antt =====
-- src/model/start_menu_model.h and .cpp, StartMenuModel: the start menu, its three categories and the
-- entry that is selected in each. Icons are left out. `product_mode` is FACTORY_TEST_PRODUCT_MODE.
use factory_test.Common.{
  Bool, true, false, not, ◌&&◌, ◌==◌, ℕ, zero, suc, ◌+◌, ◌-◌, String, List, [], ◌∷◌, ◌++◌, length,
  get_elem?, ltb, leb, Option, none, some, if◌then◌else◌,
}
pub mod Positions
pub mod Moves

pub data StartMenuCategory : Type 0 where
  auto periph comms : StartMenuCategory

pub data AppPage : Type 0 where
  start keyboard_test lcd_test audio_test camera_test ir_send_test : AppPage
  ir_receive_test power_info imu_test device_info perf_test wifi_test : AppPage
  bt_test eth_test usb_test hdmi_test i2c_test spi_test : AppPage
  uart_test ext_io_test link_test cpu_benchmark mem_stress_test sd_card_test : AppPage
  test_result cap_fixture_test cap_lora_1262_test cap_cc1101_test ir_fixture_test py32_upgrade :
      AppPage
  fire_in_the_pi : AppPage

pub record StartMenuItem : Type 0 where
  pub title : String
  pub category : StartMenuCategory
  pub target_page : AppPage
  pub starts_sequence : Bool

abbrev pub entry : String → StartMenuCategory → AppPage → Bool → StartMenuItem
entry title category target_page starts_sequence = record {
  title = title;
  category = category;
  target_page = target_page;
  starts_sequence = starts_sequence;
}

abbrev pub items_before : List StartMenuItem
items_before =
    entry "Start Full Test" auto keyboard_test true
    ∷ entry "Fire in the Pi" auto fire_in_the_pi false
    ∷ entry "Language" auto start false
    ∷ entry "Sound" auto start false
    ∷ entry "Device Information" auto device_info false
    ∷ []

abbrev pub items_after : List StartMenuItem
items_after =
    entry "Power Information" auto power_info false
    ∷ entry "CPU Benchmark" auto cpu_benchmark false
    ∷ entry "Mem Stress Test" auto mem_stress_test false
    ∷ entry "SD Card Test" auto sd_card_test false
    ∷ entry "Poweroff" auto start false
    ∷ entry "Reboot" auto start false
    ∷ entry "Input Test" periph keyboard_test false
    ∷ entry "Display Test" periph lcd_test false
    ∷ entry "Audio Test" periph audio_test false
    ∷ entry "Camera Test" periph camera_test false
    ∷ entry "IR Sender" periph ir_send_test false
    ∷ entry "IR Receiver" periph ir_receive_test false
    ∷ entry "IMU Test" periph imu_test false
    ∷ entry "Wi-Fi" comms wifi_test false
    ∷ entry "Bluetooth" comms bt_test false
    ∷ entry "Ethernet" comms eth_test false
    ∷ entry "USB" comms usb_test false
    ∷ entry "HDMI" comms hdmi_test false
    ∷ entry "I2C" comms i2c_test false
    ∷ entry "SPI" comms spi_test false
    ∷ entry "UART" comms uart_test false
    ∷ entry "EXT.IO" comms ext_io_test false
    ∷ entry "Link Test" comms link_test false
    ∷ entry "CAP LoRa-1262" comms cap_lora_1262_test false
    ∷ entry "CAP-CC1101" comms cap_cc1101_test false
    ∷ []

unfoldable pub start_menu_items : Bool → List StartMenuItem
start_menu_items product_mode =
    items_before
    ++ ((if product_mode then entry "IOE1 Upgrade" auto py32_upgrade false ∷ [] else [])
        ++ items_after)

abbrev pub category_to_index : StartMenuCategory → ℕ
category_to_index auto = 0
category_to_index periph = 1
category_to_index comms = 2

abbrev pub category_count : ℕ
category_count = 3

-- The cast back, for the numbers of categories.
abbrev pub category_of : ℕ → StartMenuCategory
category_of zero = auto
category_of (suc zero) = periph
category_of (suc (suc _)) = comms

abbrev pub same_category : StartMenuCategory → StartMenuCategory → Bool
same_category c d = category_to_index c == category_to_index d

-- The array selected_indices_ is a function of the category.
pub record StartMenuModel : Type 0 where
  pub selected_category : StartMenuCategory
  pub selected_indices : StartMenuCategory → ℕ
  pub drawer_hidden : Bool

unfoldable pub item_count_for_category : List StartMenuItem → StartMenuCategory → ℕ
item_count_for_category [] category = 0
item_count_for_category (item ∷ items) category =
    if same_category item.category category
    then suc (item_count_for_category items category)
    else item_count_for_category items category

-- The loop of absolute_index_for_category_ from the index `i` on, with category_index in `seen`.
unfoldable pub absolute_from : List StartMenuItem → StartMenuCategory → ℕ → ℕ → ℕ → ℕ → ℕ
absolute_from [] category index seen i none_found = none_found
absolute_from (item ∷ items) category index seen i none_found =
    let same = same_category item.category category in
    let rest =
      absolute_from items category index (if same then suc seen else seen) (suc i) none_found in
    if same && seen == index then i else rest

unfoldable pub absolute_index_for_category : List StartMenuItem → StartMenuCategory → ℕ → ℕ
absolute_index_for_category items category index =
    absolute_from items category index 0 0 (length items)

unfoldable pub item_for_category : List StartMenuItem → StartMenuCategory → ℕ → Option StartMenuItem
item_for_category items category index =
    let absolute_index = absolute_index_for_category items category index in
    if leb (length items) absolute_index then none else get_elem? items absolute_index

abbrev pub assign_index : StartMenuCategory → ℕ → StartMenuModel → StartMenuModel
assign_index category index m = record m {
  selected_indices = λ c. if same_category c category then index else m.selected_indices c;
}

abbrev pub selected_index : StartMenuModel → ℕ
selected_index m = m.selected_indices m.selected_category

-- items()[…]: `none` is an access past the end.
abbrev pub selected_item : List StartMenuItem → StartMenuModel → Option StartMenuItem
selected_item items m =
    get_elem? items (absolute_index_for_category items m.selected_category (selected_index m))

unfoldable pub select_previous : StartMenuModel → StartMenuModel
select_previous m =
    let index = selected_index m in
    if ltb 0 index then assign_index m.selected_category (index - 1) m else m

module _ (items : List StartMenuItem) where
  unfoldable pub select_next : StartMenuModel → StartMenuModel
  select_next m =
      let index = selected_index m in
      if ltb (index + 1) (item_count_for_category items m.selected_category)
      then assign_index m.selected_category (index + 1) m
      else m

  unfoldable pub set_selected_index : ℕ → StartMenuModel → StartMenuModel
  set_selected_index index m =
      if ltb index (item_count_for_category items m.selected_category)
      then assign_index m.selected_category index m
      else m

  -- std::min(index, count - 1), and 0 in an empty category.
  abbrev pub clamped : ℕ → ℕ → ℕ
  clamped count index = if count == 0 then 0 else if ltb (count - 1) index then count - 1 else index

  unfoldable pub set_selected_category : StartMenuCategory → StartMenuModel → StartMenuModel
  set_selected_category category m =
      assign_index category
        (clamped (item_count_for_category items category) (m.selected_indices category))
        (record m { selected_category = category })

  unfoldable pub select_previous_category : StartMenuModel → StartMenuModel
  select_previous_category m =
      let current = category_to_index m.selected_category in
      if ltb 0 current then set_selected_category (category_of (current - 1)) m else m

  unfoldable pub select_next_category : StartMenuModel → StartMenuModel
  select_next_category m =
      let current = category_to_index m.selected_category in
      if ltb (current + 1) category_count
      then set_selected_category (category_of (current + 1)) m
      else m
