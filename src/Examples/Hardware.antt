-- ===== src/Examples/Hardware.antt =====
-- Checks on concrete hardware: a fixture that passes at the second look, and one device on a port.
use factory_test.Common.{
  true, false, ℕ, zero, suc, List, [], ◌∷◌, All, Option, none, some, ◌≡◌, ◌↔◌, refl,
}
use factory_test.CapFixture.Types.{
  CapFixtureRunState, CapFixtureItemState, CapFixtureItemSnapshot, CapFixtureSnapshot,
}
use factory_test.IrFixture.Types.{IrFixtureRunState, IrFixtureItemState, IrFixtureSnapshot}
use factory_test.Precheck.{CheckItem, Findings, new_item, make_cap_fixture_sub_items}
use factory_test.Precheck.Devices.{Devices, pos, UsbDevice}
use factory_test.Precheck.Watches.{found, watch_cap, run_cap_fixture_check, run_usb_port_check}
use factory_test.Precheck.Fixtures.{IsHonest, PassedSubItem, run_cap_fixture_check-All}
use factory_test.Precheck.Ports.{IsPlugged, run_usb_port_check_iff}

abbrev item_in : CapFixtureItemState → CapFixtureItemSnapshot
item_in state = record { name = "USB"; state = state; detail = "" }

abbrev eight : CapFixtureItemState → List CapFixtureItemSnapshot
eight state =
    item_in state
    ∷ item_in state
    ∷ item_in state
    ∷ item_in state
    ∷ item_in state
    ∷ item_in state
    ∷ item_in state
    ∷ item_in state
    ∷ []

abbrev fixture_at : ℕ → CapFixtureSnapshot
fixture_at zero = record {
  state = CapFixtureRunState.running;
  items = eight CapFixtureItemState.running;
  active_index = 0;
  headline = "";
  error_message = "";
  revision = 1;
}
fixture_at (suc n) = record {
  state = CapFixtureRunState.passed;
  items = eight CapFixtureItemState.passed;
  active_index = 7;
  headline = "";
  error_message = "";
  revision = 2;
}

abbrev infrared : IrFixtureSnapshot
infrared = record {
  state = IrFixtureRunState.running;
  tx = record { name = "IR TX"; state = IrFixtureItemState.running; detail = "" };
  rx = record { name = "IR RX"; state = IrFixtureItemState.pending; detail = "" };
  headline = "";
  error_message = "";
  revision = 0;
}

abbrev keyboard : UsbDevice
keyboard = record { bus = 1; port_path = "1.2"; vid = "1234"; pid = "5678"; name = "" }

-- The world counts the sleeps.
abbrev devices : Devices
devices = record {
  World = ℕ;
  is_canceled = λ w. (false, w);
  sleep = λ n w. suc w;
  now = λ w. (w, w);
  count_device_info_fields = λ w. (3, w);
  read_hdmi_info = λ w. ((record { connected = true; status = "connected" }, ""), w);
  list_usb_port_devices = λ w. ((keyboard ∷ [], ""), w);
  read_ethernet_info = λ w.
      ((record { interface_name = ""; state = ""; connected = false; ip4_address = "" }, ""), w);
  read_battery_info = λ w. (
    (
      true,
      record {
        status = "Full";
        capacity_percent = pos 100;
        voltage_now_uv = pos 4200000;
        current_now_ua = pos 0;
      },
      "",
    ),
    w,
  );
  find_audio_device = λ w. ((true, ""), w);
  record_wav = λ w. (true, w);
  play_wav = λ w. (true, w);
  find_camera = λ w. ((true, ""), w);
  start_preview = λ error w. ((true, error), w);
  copy_frame = λ w. (some (320, 240), w);
  stop_preview = λ w. w;
  find_imu = λ w. ((true, ""), w);
  read_nine_axis = λ error w. (((true, true, true), error), w);
  start_cap_fixture = λ w. 0;
  cancel_cap_fixture = λ w. w;
  cap_fixture_snapshot = λ w. (fixture_at w, w);
  start_ir_fixture = λ w. w;
  cancel_ir_fixture = λ w. w;
  ir_fixture_snapshot = λ w. (infrared, w);
  to_string = λ n. "1";
}

honest : IsHonest devices
honest zero e = absurd (let bad : CapFixtureRunState.running ≡ CapFixtureRunState.passed = e in cc)
honest (suc n) e = (refl, (refl, (refl, (refl, (refl, (refl, (refl, (refl, (refl, tt)))))))))

abbrev item : CheckItem
item = record (new_item "cap_fixture" "CAP 治具检测") { cap_sub_items = make_cap_fixture_sub_items }

abbrev result_of : Option (Findings × ℕ) → Findings × ℕ
result_of none = (found item false "", 0)
result_of (some result) = result

abbrev result : Findings × ℕ
result = result_of (run_cap_fixture_check devices 3 item 0)

ran : run_cap_fixture_check devices 3 item 0 ≡ some result
unfolding watch_cap
ran = refl

passed : result.0.success ≡ true
unfolding watch_cap
passed = refl

run_cap_fixture_check-All_example : All PassedSubItem result.0.cap_sub_items
run_cap_fixture_check-All_example =
    run_cap_fixture_check-All devices 3 item 0 result.0 result.1 honest refl ran passed

run_usb_port_check_iff_example :
    ((run_usb_port_check devices 1 "1.2" item 0).0.success ≡ true)
    ↔ ((true ≡ true) × IsPlugged 1 "1.2" (keyboard ∷ []))
run_usb_port_check_iff_example = run_usb_port_check_iff devices 1 "1.2" item 0
