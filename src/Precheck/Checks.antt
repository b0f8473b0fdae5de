-- ===== src/Precheck/Checks.antt =====
-- src/factory_precheck/precheck_model.cpp: run_check_ and the checks of one reading.
use factory_test.Common.{
  Bool, true, false, not, ◌&&◌, ltb, ℕ, zero, suc, ◌+◌, String, is_empty, str_eq, concat, List, [],
  ◌∷◌, get_elem?, Option, none, some, if◌then◌else◌,
}
use factory_test.Precheck.{CheckItem, Findings}
use factory_test.Precheck.Devices.{
  ℤ, pos, negsuc, thousandth, PowerSupplyInfo, Devices, k_camera_frame_timeout_ms,
  k_camera_frame_poll_interval_ms, text_or, battery_status_text,
}
use factory_test.Precheck.Watches.{
  Check, found, run_usb_port_check, run_cap_fixture_check, run_ir_fixture_check,
}

abbrev pub is_nonnegative : ℤ → Bool
is_nonnegative (pos n) = true
is_nonnegative (negsuc n) = false

abbrev pub is_positive : ℤ → Bool
is_positive (pos (suc n)) = true
is_positive _ = false

abbrev pub is_minus_one : ℤ → Bool
is_minus_one (negsuc zero) = true
is_minus_one _ = false

module _ (d : Devices) where
  unfoldable pub check_device_info : Check d
  check_device_info item w =
      let (count, w') = d.count_device_info_fields w in
      (
        elim count [
          | zero ↦ found item false "未读取到设备信息"
          | suc n ↦ found item true (concat (d.to_string (pos (suc n))) " 项信息")
        ],
        w',
      )

  unfoldable pub check_hdmi : Check d
  check_hdmi item w =
      let ((info, error), w') = d.read_hdmi_info w in
      (
        found item (is_empty error && info.connected)
            (if is_empty error then info.status else error),
        w',
      )

  unfoldable pub check_ethernet : Check d
  check_ethernet item w =
      let ((info, error), w') = d.read_ethernet_info w in
      let unconnected =
        if str_eq info.state "unavailable"
        then "网线未插入"
        else if str_eq info.state "disconnected"
        then "网线已插入，未获取到 IP 地址"
        else concat "未连接: " info.state in
      (
        (if not (is_empty error)
            then found item false error
            else if is_empty info.interface_name
            then found item false "未找到以太网设备"
            else if not info.connected
            then found item false unconnected
            else if is_empty info.ip4_address
            then found item false "已连接，未获取到 IP 地址"
            else found item true (concat info.interface_name (concat " " info.ip4_address))),
        w',
      )

  -- The four checks of the battery: what is shown of a good reading, and what else.
  unfoldable pub check_battery :
      (PowerSupplyInfo → Bool) → (PowerSupplyInfo → String) → String → Check d
  check_battery good shown missing item w =
      let ((read_ok, info, error), w') = d.read_battery_info w in
      let ok = read_ok && good info in
      (found item ok (if ok then shown info else text_or error missing), w')

  -- Unlike the others it shows a status that is empty.
  unfoldable pub check_battery_status : Check d
  check_battery_status item w =
      let ((read_ok, info, error), w') = d.read_battery_info w in
      (
        found item (read_ok && not (is_empty info.status))
            (if read_ok then battery_status_text info.status else text_or error "未读取到电池信息"),
        w',
      )

  unfoldable pub check_battery_level : Check d
  check_battery_level =
      check_battery (λ info. is_nonnegative info.capacity_percent)
        (λ info. concat (d.to_string info.capacity_percent) "%") "未读取到电量"

  unfoldable pub check_battery_voltage : Check d
  check_battery_voltage =
      check_battery (λ info. is_positive info.voltage_now_uv)
        (λ info. concat (d.to_string (thousandth info.voltage_now_uv)) " mV") "未读取到电压"

  unfoldable pub check_battery_current : Check d
  check_battery_current =
      check_battery (λ info. not (is_minus_one info.current_now_ua))
        (λ info. concat (d.to_string (thousandth info.current_now_ua)) " mA") "未读取到电流"

  -- A call that is made only if what came before succeeded.
  abbrev pub and_then : Bool → (d.World → Bool × d.World) → d.World → Bool × d.World
  and_then b call w = let called = call w in if b then called else (false, w)

  unfoldable pub check_audio : Check d
  check_audio item w =
      let ((found_device, error), w1) = d.find_audio_device w in
      let (recorded, w2) = and_then found_device d.record_wav w1 in
      let (played, w3) = and_then recorded d.play_wav w2 in
      (found item played (if played then "录音/播放通过" else text_or error "录音或播放失败"), w3)

  -- The loop over the frames, up to the deadline: the first frame's size, if one came.
  unfoldable pub await_frame : ℕ → ℕ → d.World → Option (Option (ℕ × ℕ) × d.World)
  await_frame zero deadline w = none
  await_frame (suc rounds) deadline w =
      let (canceled, w1) = d.is_canceled w in
      let (time, w2) = d.now w1 in
      let (frame, w3) = d.copy_frame w2 in
      let rest = await_frame rounds deadline (d.sleep k_camera_frame_poll_interval_ms w3) in
      if canceled
      then some (none, w1)
      else if not (ltb time deadline)
      then some (none, w2)
      else elim frame [ some size ↦ some (some size, w3) | none ↦ rest ]

  -- The end of the check of the camera, after the wait.
  unfoldable pub camera_result : CheckItem → String → Option (ℕ × ℕ) × d.World → Findings × d.World
  camera_result item error (some (width, height), w) = (
    found item true (concat (d.to_string (pos width)) (concat "x" (d.to_string (pos height)))),
    d.stop_preview w,
  )
  camera_result item error (none, w) =
      let (canceled, w1) = d.is_canceled w in
      let waited = if canceled then "相机检测已取消" else "等待相机首帧超时" in
      if is_empty error
      then (found item false waited, d.stop_preview w1)
      else (found item false error, d.stop_preview w)

  -- A round for each millisecond of the time-out and one more.
  unfoldable pub check_camera : CheckItem → d.World → Option (Findings × d.World)
  check_camera item w =
      let ((found_camera, error), w1) = d.find_camera w in
      let ((started, error'), w2) = d.start_preview error w1 in
      let (start, w3) = d.now w2 in
      let frame =
        await_frame (k_camera_frame_timeout_ms + 1) (start + k_camera_frame_timeout_ms) w3 in
      if not found_camera
      then some (found item false (text_or error "未取得有效帧"), d.stop_preview w1)
      else if not started
      then some (found item false (text_or error' "未取得有效帧"), d.stop_preview w2)
      else elim frame [ none ↦ none | some result ↦ some (camera_result item error' result) ]

  unfoldable pub check_imu : Check d
  check_imu item w =
      let ((found_device, error), w1) = d.find_imu w in
      let (((read, accel, gyro), error'), w2) = d.read_nine_axis error w1 in
      if not found_device then (found item false (text_or error "读取失败"), w1) else (
        found item (read && accel && gyro)
            (if read && accel && gyro then "读取通过" else text_or error' "读取失败"),
        w2,
      )

  -- run_check_: the switch over the index. `none` when a fixture goes on for longer than the rounds.
  unfoldable pub run_check : ℕ → ℕ → CheckItem → d.World → Option (Findings × d.World)
  run_check rounds index item w =
      let checks : List (CheckItem → d.World → Option (Findings × d.World)) =
        total check_device_info
        ∷ total (run_usb_port_check d 1 "1.2")
        ∷ total (run_usb_port_check d 1 "1.3")
        ∷ total check_hdmi
        ∷ run_cap_fixture_check d rounds
        ∷ run_ir_fixture_check d rounds
        ∷ total check_ethernet
        ∷ total check_battery_status
        ∷ total check_battery_level
        ∷ total check_battery_voltage
        ∷ total check_battery_current
        ∷ total check_audio
        ∷ check_camera
        ∷ total check_imu
        ∷ [] in
      elim (get_elem? checks index) [
        | none ↦ some (found item false item.detail, w)
        | some check ↦ check item w
      ]
    where
      total : Check d → CheckItem → d.World → Option (Findings × d.World)
      total check item w = some (check item w)
