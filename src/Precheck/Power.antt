-- ===== src/Precheck/Power.antt =====
-- src/factory_precheck/precheck_model.cpp: the constructor, cancel, and the commands that end the session.
use factory_test.Common.{Bool, String, concat, if◌then◌else◌}
use factory_test.Precheck.{RunState, Snapshot, make_items, is_running}

-- PrecheckModel(), for the name of the product and the serial number that are read.
abbrev pub new_snapshot : String → String → Snapshot
new_snapshot device_name serial_number = record {
  state = RunState.idle;
  current_index = 0;
  completed = 0;
  passed = 0;
  failed = 0;
  device_name = device_name;
  serial_number = serial_number;
  headline = "按 Enter 开始自动初检";
  items = make_items;
}

-- What cancel does after the worker has ended.
abbrev pub cancel : Snapshot → Snapshot
cancel s =
    if is_running s.state then record s { state = RunState.canceled; headline = "初检已取消" } else s

-- The commands: whether the service succeeded, its message, and the snapshot after it.
abbrev pub after_command : String → Bool → String → Snapshot → Snapshot
after_command failure success error_message s =
    if success then s else record s { headline = concat failure error_message }

abbrev pub safe_poweroff : Bool → String → Snapshot → Bool × Snapshot
safe_poweroff success error_message s = (success, after_command "关机失败: " success error_message s)

abbrev pub safe_reboot : Bool → String → Snapshot → Bool × Snapshot
safe_reboot success error_message s = (success, after_command "重启失败: " success error_message s)
