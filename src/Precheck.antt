-- ===== src/Precheck.antt =====
-- src/factory_precheck/precheck_model.h and .cpp, PrecheckModel: the list of checks and the worker that
-- runs through it. What reaches the worker from outside is a parameter, `Bench`.
use factory_test.Common.{
  Bool, true, false, not, ◌==◌, ℕ, zero, suc, ◌+◌, ◌%◌, String, str_eq, List, [], ◌∷◌, map,
  if◌then◌else◌,
}
use factory_test.Session.Types.{size_mod}
pub mod Watches
pub mod Checks
pub mod Ports
pub mod Power
pub mod Counts
pub mod Devices
pub mod Fixtures
pub mod Prepared
pub mod Runs

pub data RunState : Type 0 where
  idle running passed failed canceled : RunState

pub data CheckState : Type 0 where
  pending running passed failed canceled skipped : CheckState

-- CapFixtureSubItem and IrFixtureSubItem, which have the same fields.
pub record FixtureSubItem : Type 0 where
  pub name : String
  pub state : CheckState
  pub detail : String

pub record CheckItem : Type 0 where
  pub id : String
  pub name : String
  pub state : CheckState
  pub detail : String
  pub cap_sub_items : List FixtureSubItem
  pub ir_sub_items : List FixtureSubItem

pub record Snapshot : Type 0 where
  pub state : RunState
  pub current_index : ℕ
  pub completed : ℕ
  pub passed : ℕ
  pub failed : ℕ
  pub device_name : String
  pub serial_number : String
  pub headline : String
  pub items : List CheckItem

abbrev pub is_pending : CheckState → Bool
is_pending CheckState.pending = true
is_pending _ = false

abbrev pub is_failed : CheckState → Bool
is_failed CheckState.failed = true
is_failed _ = false

abbrev pub is_running : RunState → Bool
is_running RunState.running = true
is_running _ = false

abbrev pub is_over : RunState → Bool
is_over RunState.failed = true
is_over RunState.passed = true
is_over _ = false

-- ++ and -- on std::size_t.
abbrev pub increment : ℕ → ℕ
increment n = (n + 1) % size_mod

abbrev pub decrement : ℕ → ℕ
decrement n = (n + 18446744073709551615) % size_mod

abbrev pub waiting : String → FixtureSubItem
waiting name = record { name = name; state = CheckState.pending; detail = "等待" }

abbrev pub make_cap_fixture_sub_items : List FixtureSubItem
make_cap_fixture_sub_items =
    waiting "Power"
    ∷ waiting "I2C"
    ∷ waiting "Grove I2C"
    ∷ waiting "UART"
    ∷ waiting "Grove UART"
    ∷ waiting "SPI"
    ∷ waiting "USB"
    ∷ waiting "GPIO"
    ∷ []

abbrev pub make_ir_fixture_sub_items : List FixtureSubItem
make_ir_fixture_sub_items = waiting "IR TX" ∷ waiting "IR RX" ∷ []

abbrev pub new_item : String → String → CheckItem
new_item id name = record {
  id = id;
  name = name;
  state = CheckState.pending;
  detail = "等待";
  cap_sub_items = [];
  ir_sub_items = [];
}

abbrev pub make_items : List CheckItem
make_items =
    new_item "device_info" "设备信息"
    ∷ new_item "usb_a" "左侧 USB-A"
    ∷ new_item "usb_c" "左侧 USB-C"
    ∷ new_item "hdmi" "HDMI 状态"
    ∷ record (new_item "cap_fixture" "CAP 治具检测") { cap_sub_items = make_cap_fixture_sub_items }
    ∷ record (new_item "ir_fixture" "IR 治具检测") { ir_sub_items = make_ir_fixture_sub_items }
    ∷ new_item "ethernet" "以太网"
    ∷ new_item "battery_status" "电池充电状态"
    ∷ new_item "battery_level" "电池电量"
    ∷ new_item "battery_voltage" "电池电压"
    ∷ new_item "battery_current" "电池电流"
    ∷ new_item "audio" "音频录放"
    ∷ new_item "camera" "相机"
    ∷ new_item "imu" "IMU"
    ∷ []

abbrev pub camera_item : ℕ
camera_item = 12

abbrev pub imu_item : ℕ
imu_item = 13

-- What run_check_ finds out at an index with the hardware: whether the item passed, and the details
-- that it writes into the item. `is_canceled` is a load of cancel_requested_, which cancel sets from
-- another thread at any time. `is_lite` is skip_camera_and_imu.
pub record Findings : Type 0 where
  pub success : Bool
  pub detail : String
  pub cap_sub_items : List FixtureSubItem
  pub ir_sub_items : List FixtureSubItem

pub record Bench : Type 1 where
  pub World : Type 0
  pub is_lite : Bool
  pub run_check : ℕ → CheckItem → World → Findings × World
  pub is_canceled : World → Bool × World

-- The reset of the snapshot in start.
unfoldable pub prepared : Snapshot → Snapshot
prepared s = record s {
  items = make_items;
  current_index = 0;
  completed = 0;
  passed = 0;
  failed = 0;
  state = RunState.running;
  headline = "正在执行自动初检";
}

abbrev pub wait_again : List FixtureSubItem → List FixtureSubItem
wait_again =
    map {A = FixtureSubItem} (λ sub. record sub { state = CheckState.pending; detail = "等待" })

abbrev pub retried : CheckItem → CheckItem
retried item = record item {
  state = CheckState.pending;
  detail = "等待重试";
  cap_sub_items =
      if str_eq item.id "cap_fixture" then wait_again item.cap_sub_items else item.cap_sub_items;
  ir_sub_items =
      if str_eq item.id "ir_fixture" then wait_again item.ir_sub_items else item.ir_sub_items;
}

-- The loop of retry_failed over the items, with the counters completed and failed.
unfoldable pub retry_items : List CheckItem → ℕ → ℕ → List CheckItem × (ℕ × ℕ)
retry_items [] done fails = ([], (done, fails))
retry_items (item ∷ items) done fails =
    let again = is_failed item.state in
    let (rest, counts) =
      retry_items items (if again then decrement done else done)
        (if again then decrement fails else fails) in
    ((if again then retried item else item) ∷ rest, counts)

-- The snapshot that retry_failed sets up.
unfoldable pub retry_prepared : Snapshot → Snapshot
retry_prepared s =
    let (items, (done, fails)) = retry_items s.items s.completed s.failed in
    record s {
      items = items;
      completed = done;
      failed = fails;
      state = RunState.running;
      headline = "正在重试失败项目";
    }

abbrev pub skip_item : CheckItem → CheckItem
skip_item item = record item { state = CheckState.skipped; detail = "机型不支持" }

unfoldable pub change_at : ℕ → (CheckItem → CheckItem) → List CheckItem → List CheckItem
change_at index f [] = []
change_at zero f (item ∷ items) = f item ∷ items
change_at (suc index) f (item ∷ items) = item ∷ change_at index f items

-- The items that a Lite model has not got.
unfoldable pub skip_unsupported : Snapshot → Snapshot
skip_unsupported s = record s {
  items = change_at imu_item skip_item (change_at camera_item skip_item s.items);
  completed = increment (increment s.completed);
}

pub record Counters : Type 0 where
  pub current_index : ℕ
  pub completed : ℕ
  pub passed : ℕ
  pub failed : ℕ

module _ (b : Bench) where
  open b use {World, run_check, is_canceled}

  -- One round of the loop of run_: whether the run stops, the item, the counters and the world after it.
  pub record Round : Type 0 where
    pub stops : Bool
    pub item : CheckItem
    pub counters : Counters
    pub world : World

  abbrev pub checked_item : CheckItem → Findings → CheckItem
  checked_item item f = record item {
    state = if f.success then CheckState.passed else CheckState.failed;
    detail = if str_eq f.detail "检测中" then if f.success then "通过" else "失败" else f.detail;
    cap_sub_items = f.cap_sub_items;
    ir_sub_items = f.ir_sub_items;
  }

  abbrev pub canceled_item : CheckItem → Findings → CheckItem
  canceled_item item f = record item {
    state = CheckState.canceled;
    detail = "已取消";
    cap_sub_items = f.cap_sub_items;
    ir_sub_items = f.ir_sub_items;
  }

  abbrev pub counted : Bool → Counters → Counters
  counted success c = record c {
    completed = increment c.completed;
    passed = if success then increment c.passed else c.passed;
    failed = if success then c.failed else increment c.failed;
  }

  abbrev pub check_round : ℕ → CheckItem → Counters → World → Round
  check_round i item c w =
      let c' = record c { current_index = i } in
      let (f, w₁) = run_check i (record item { state = CheckState.running; detail = "检测中" }) w in
      let (stop, w₂) = is_canceled w₁ in
      if stop
      then record { stops = true; item = canceled_item item f; counters = c'; world = w₂ }
      else record {
        stops = false;
        item = checked_item item f;
        counters = counted f.success c';
        world = w₂;
      }

  abbrev pub round : ℕ → CheckItem → Counters → World → Round
  round i item c w =
      let (stop, w') = is_canceled w in
      if stop
      then record { stops = true; item = item; counters = c; world = w' }
      else if not (is_pending item.state)
      then record { stops = false; item = item; counters = c; world = w' }
      else check_round i item c w'

  pub record Pass : Type 0 where
    pub stopped : Bool
    pub items : List CheckItem
    pub counters : Counters
    pub world : World

  -- The loop from the index `i` on.
  unfoldable pub run_items : ℕ → List CheckItem → Counters → World → Pass
  run_items i [] c w = record { stopped = false; items = []; counters = c; world = w }
  run_items i (item ∷ items) c w =
      let r = round i item c w in
      let rest = run_items (suc i) items r.counters r.world in
      if r.stops
      then record { stopped = true; items = r.item ∷ items; counters = r.counters; world = r.world }
      else record rest { items = r.item ∷ rest.items }

  abbrev pub final_state : Bool → ℕ → RunState
  final_state stopped fails =
      if stopped then RunState.canceled else if fails == 0 then RunState.passed else RunState.failed

  abbrev pub final_headline : Bool → ℕ → String
  final_headline stopped fails =
      if stopped then "初检已取消" else if fails == 0 then "自动初检通过" else "自动初检失败"

  unfoldable pub run : Snapshot → World → Snapshot × World
  run s w =
      let s₁ = if b.is_lite then skip_unsupported s else s in
      let p =
        run_items 0 s₁.items
          (record {
            current_index = s₁.current_index;
            completed = s₁.completed;
            passed = s₁.passed;
            failed = s₁.failed;
          })
          w in
      (
        record s₁ {
          items = p.items;
          current_index = p.counters.current_index;
          completed = p.counters.completed;
          passed = p.counters.passed;
          failed = p.counters.failed;
          state = final_state p.stopped p.counters.failed;
          headline = final_headline p.stopped p.counters.failed;
        },
        p.world,
      )

  -- start and retry_failed, up to the end of the worker that they start: the next of the operations
  -- joins it before it does anything.
  unfoldable pub start : Snapshot → World → Snapshot × World
  start s w = if is_running s.state then (s, w) else run (prepared s) w

  unfoldable pub retry_failed : Snapshot → World → Snapshot × World
  retry_failed s w = if not (is_over s.state) then (s, w) else run (retry_prepared s) w
