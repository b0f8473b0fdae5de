-- ===== src/Precheck/Watches.antt =====
-- src/factory_precheck/precheck_model.cpp: the checks of the USB ports and of the fixtures.
use factory_test.Common.{
  Bool, true, false, not, ℕ, zero, suc, String, is_empty, concat, List, [], ◌∷◌, Option, none, some,
  if◌then◌else◌,
}
use factory_test.CapFixture.Types.{CapFixtureRunState, CapFixtureItemSnapshot}
use factory_test.IrFixture.Types.{IrFixtureRunState, IrFixtureItemSnapshot}
use factory_test.Precheck.{FixtureSubItem, CheckItem, Findings}
use factory_test.Precheck.Devices.{
  pos, is_usb_device_at_port, UsbDevice, Devices, cap_fixture_sub_state, ir_fixture_sub_state,
  text_or,
}

-- The first of an item's sub items, as many as the fixture has items, show these.
abbrev pub mirror_cap : List CapFixtureItemSnapshot → List FixtureSubItem → List FixtureSubItem
mirror_cap (item ∷ items) (sub ∷ subs) =
    record { name = item.name; state = cap_fixture_sub_state item.state; detail = item.detail }
    ∷ mirror_cap items subs
mirror_cap [] subs = subs
mirror_cap (item ∷ items) [] = []

abbrev pub mirror_ir : List IrFixtureItemSnapshot → List FixtureSubItem → List FixtureSubItem
mirror_ir (item ∷ items) (sub ∷ subs) =
    record { name = item.name; state = ir_fixture_sub_state item.state; detail = item.detail }
    ∷ mirror_ir items subs
mirror_ir [] subs = subs
mirror_ir (item ∷ items) [] = []

-- The item, with a detail, and the result of its check.
abbrev pub found : CheckItem → Bool → String → Findings
found item success detail = record {
  success = success;
  detail = detail;
  cap_sub_items = item.cap_sub_items;
  ir_sub_items = item.ir_sub_items;
}

-- How a fixture's run stands: it goes on, it passed, or it ended otherwise.
pub data Standing : Type 0 where
  goes_on passed ended : Standing

abbrev pub cap_standing : CapFixtureRunState → Standing
cap_standing CapFixtureRunState.passed = passed
cap_standing CapFixtureRunState.failed = ended
cap_standing CapFixtureRunState.canceled = ended
cap_standing _ = goes_on

abbrev pub ir_standing : IrFixtureRunState → Standing
ir_standing IrFixtureRunState.passed = passed
ir_standing IrFixtureRunState.failed = ended
ir_standing IrFixtureRunState.canceled = ended
ir_standing _ = goes_on

unfoldable pub at_port : List UsbDevice → ℕ → String → Option UsbDevice
at_port [] bus path = none
at_port (device ∷ devices) bus path =
    if is_usb_device_at_port device bus path then some device else at_port devices bus path

module _ (d : Devices) where
  -- A check of an item: its result and the world after it.
  abbrev pub Check : Type 0
  Check = CheckItem → d.World → Findings × d.World

  unfoldable pub run_usb_port_check : ℕ → String → Check
  run_usb_port_check expected_bus expected_port_path item w =
      let ((devices, error), w') = d.list_usb_port_devices w in
      if not (is_empty error)
      then (found item false error, w')
      else elim (at_port devices expected_bus expected_port_path) [
        | some device ↦ (
          found item true (
              concat (text_or device.vid "????") (
                concat ":" (
                  concat (text_or device.pid "????") (concat " " (text_or device.name "USB 设备"))))),
          w',
        )
        | none ↦ (
          found item false (
              concat "未枚举到 Bus "
                (concat (d.to_string (pos expected_bus)) (concat " Port " expected_port_path))),
          w',
        )
      ]

  -- The loop of run_cap_fixture_check_; `none` when the fixture goes on for longer than the rounds.
  unfoldable pub watch_cap : ℕ → CheckItem → d.World → Option (Findings × d.World)
  watch_cap zero item w = none
  watch_cap (suc rounds) item w =
      let (canceled, w1) = d.is_canceled w in
      let (fixture, w2) = d.cap_fixture_snapshot w1 in
      let item' = record item { cap_sub_items = mirror_cap fixture.items item.cap_sub_items } in
      let rest = watch_cap rounds item' (d.sleep 100 w2) in
      if canceled
      then some (found item false item.detail, d.cancel_cap_fixture w1)
      else elim (cap_standing fixture.state) [
        | passed ↦ some (found item' true "8 项全部通过", w2)
        | ended ↦ some (found item' false (text_or fixture.error_message "检测失败"), w2)
        | goes_on ↦ rest
      ]

  abbrev pub run_cap_fixture_check : ℕ → CheckItem → d.World → Option (Findings × d.World)
  run_cap_fixture_check rounds item w = watch_cap rounds item (d.start_cap_fixture w)

  -- The loop of run_ir_fixture_check_.
  unfoldable pub watch_ir : ℕ → CheckItem → d.World → Option (Findings × d.World)
  watch_ir zero item w = none
  watch_ir (suc rounds) item w =
      let (canceled, w1) = d.is_canceled w in
      let (fixture, w2) = d.ir_fixture_snapshot w1 in
      let item' = record item {
        ir_sub_items = mirror_ir (fixture.tx ∷ fixture.rx ∷ []) item.ir_sub_items;
        detail = fixture.headline;
      } in
      let rest = watch_ir rounds item' (d.sleep 100 w2) in
      if canceled
      then some (found item false item.detail, d.cancel_ir_fixture w1)
      else elim (ir_standing fixture.state) [
        | passed ↦ some (found item' true "IR 治具返回帧全部通过", w2)
        | ended ↦ some (found item' false (text_or fixture.error_message "IR 治具检测失败"), w2)
        | goes_on ↦ rest
      ]

  abbrev pub run_ir_fixture_check : ℕ → CheckItem → d.World → Option (Findings × d.World)
  run_ir_fixture_check rounds item w = watch_ir rounds item (d.start_ir_fixture w)
