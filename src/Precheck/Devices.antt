-- ===== src/Precheck/Devices.antt =====
-- src/factory_precheck/precheck_model.cpp: the services that run_check_ asks, the constants and the texts.
use factory_test.Common.{
  Bool, ◌&&◌, ◌==◌, ℕ, zero, suc, ◌/◌, String, str_eq, is_empty, List, Option, if◌then◌else◌,
}
use factory_test.CapFixture.Types.{CapFixtureItemState, CapFixtureSnapshot}
use factory_test.IrFixture.Types.{IrFixtureItemState, IrFixtureSnapshot}
use factory_test.Precheck.{RunState, CheckState}

-- The signed numbers of PowerSupplyInfo.
pub data ℤ : Type 0 where
  pos negsuc : ℕ → ℤ

abbrev pub negated : ℕ → ℤ
negated zero = pos zero
negated (suc n) = negsuc n

-- Division by 1000 towards zero.
abbrev pub thousandth : ℤ → ℤ
thousandth (pos n) = pos (n / 1000)
thousandth (negsuc n) = negated (suc n / 1000)

pub record HdmiInfo : Type 0 where
  pub connected : Bool
  pub status : String

pub record EthernetInfo : Type 0 where
  pub interface_name : String
  pub state : String
  pub connected : Bool
  pub ip4_address : String

-- UsbPortDeviceInfo.
pub record UsbDevice : Type 0 where
  pub bus : ℕ
  pub port_path : String
  pub vid : String
  pub pid : String
  pub name : String

pub record PowerSupplyInfo : Type 0 where
  pub status : String
  pub capacity_percent : ℤ
  pub voltage_now_uv : ℤ
  pub current_now_ua : ℤ

-- usb_service.h.
abbrev pub is_usb_device_at_port : UsbDevice → ℕ → String → Bool
is_usb_device_at_port device expected_bus expected_port_path =
    (device.bus == expected_bus) && str_eq device.port_path expected_port_path

-- An `error` that a call may write is given to it and comes back; where the code has only just made
-- it, it is empty.
pub record Devices : Type 1 where
  pub World : Type 0
  pub is_canceled : World → Bool × World
  pub sleep : ℕ → World → World
  pub now : World → ℕ × World
  pub count_device_info_fields : World → ℕ × World
  pub read_hdmi_info : World → (HdmiInfo × String) × World
  pub list_usb_port_devices : World → (List UsbDevice × String) × World
  pub read_ethernet_info : World → (EthernetInfo × String) × World
  pub read_battery_info : World → (Bool × PowerSupplyInfo × String) × World
  pub find_audio_device : World → (Bool × String) × World
  pub record_wav : World → Bool × World
  pub play_wav : World → Bool × World
  pub find_camera : World → (Bool × String) × World
  pub start_preview : String → World → (Bool × String) × World
  pub copy_frame : World → Option (ℕ × ℕ) × World
  pub stop_preview : World → World
  pub find_imu : World → (Bool × String) × World
  -- Whether the reading succeeded, and whether its acceleration and its rotation are finite.
  pub read_nine_axis : String → World → ((Bool × Bool × Bool) × String) × World
  pub start_cap_fixture : World → World
  pub cancel_cap_fixture : World → World
  pub cap_fixture_snapshot : World → CapFixtureSnapshot × World
  pub start_ir_fixture : World → World
  pub cancel_ir_fixture : World → World
  pub ir_fixture_snapshot : World → IrFixtureSnapshot × World
  -- std::to_string.
  pub to_string : ℤ → String

abbrev pub k_camera_frame_timeout_ms : ℕ
k_camera_frame_timeout_ms = 3000

abbrev pub k_camera_frame_poll_interval_ms : ℕ
k_camera_frame_poll_interval_ms = 20

abbrev pub cap_fixture_sub_state : CapFixtureItemState → CheckState
cap_fixture_sub_state CapFixtureItemState.running = CheckState.running
cap_fixture_sub_state CapFixtureItemState.passed = CheckState.passed
cap_fixture_sub_state CapFixtureItemState.failed = CheckState.failed
cap_fixture_sub_state CapFixtureItemState.pending = CheckState.pending

abbrev pub ir_fixture_sub_state : IrFixtureItemState → CheckState
ir_fixture_sub_state IrFixtureItemState.running = CheckState.running
ir_fixture_sub_state IrFixtureItemState.passed = CheckState.passed
ir_fixture_sub_state IrFixtureItemState.failed = CheckState.failed
ir_fixture_sub_state IrFixtureItemState.pending = CheckState.pending

abbrev pub text_or : String → String → String
text_or text default = if is_empty text then default else text

abbrev pub battery_status_text : String → String
battery_status_text status =
    if str_eq status "Charging"
    then "充电中"
    else if str_eq status "Discharging"
    then "放电中"
    else if str_eq status "Full"
    then "已充满"
    else if str_eq status "Not charging"
    then "未充电"
    else if str_eq status "Unknown"
    then "未知"
    else text_or status "未读取到充电状态"

abbrev pub run_state_text : RunState → String
run_state_text RunState.running = "运行中"
run_state_text RunState.passed = "通过"
run_state_text RunState.failed = "失败"
run_state_text RunState.canceled = "已取消"
run_state_text RunState.idle = "待机"

abbrev pub check_state_text : CheckState → String
check_state_text CheckState.running = "运行"
check_state_text CheckState.passed = "通过"
check_state_text CheckState.failed = "失败"
check_state_text CheckState.canceled = "取消"
check_state_text CheckState.skipped = "跳过"
check_state_text CheckState.pending = "等待"
