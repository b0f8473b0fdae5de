-- ===== src/CapFixture/Buses.antt =====
-- src/model/cap_fixture_test_model.cpp: the stages Power, I2C, Grove I2C and SPI.
use factory_test.Common.{true, false, ◌==◌, ℕ, ◌+◌, ◌*◌, concat, List, [], ◌∷◌, ltb}
use factory_test.CapFixture.Types.{Rig}
use factory_test.CapFixture.Constants.{
  power_item, i2c_item, grove_i2c_item, spi_item, command_delay_ms, channel_switch_delay_ms,
  channel_switch_timeout_ms, grove_i2c_switch_delay_ms, grove_power_settle_ms,
  sysfs_switch_delay_ms,
}
use factory_test.CapFixture.Frames.{hex_bytes, same_bytes}
use factory_test.CapFixture.Stage.{
  Stage, ◌>>=◌, ◌>>◌, change_model, call_or_fail, begin_item, pass_item,
}
use factory_test.CapFixture.Steps.{
  otherwise, expect, delay, write_reg, write_value, read_reg, read_value, wait_for_idle,
}

abbrev pub spi_tx : List ℕ
spi_tx = 0x00 ∷ 0x11 ∷ 0x22 ∷ 0x33 ∷ 0x44 ∷ 0x55 ∷ 0x66 ∷ 0x77 ∷ 0x88 ∷ 0x99 ∷ []

abbrev pub spi_expected : List ℕ
spi_expected = 0xFF ∷ 0xEE ∷ 0xDD ∷ 0xCC ∷ 0xBB ∷ 0xAA ∷ 0x99 ∷ 0x88 ∷ 0x77 ∷ 0x66 ∷ []

module _ (r : Rig) where
  unfoldable pub run_power : Stage r (Unit {0})
  run_power = do
    begin_item r power_item "5VIN / 5VOUT"
    call_or_fail r "POWER" "EXT 5V enable failed: " (r.set_ext_5v_enabled true)
    delay r sysfs_switch_delay_ms
    write_value r "POWER" 0x01 0x01
    delay r 200
    charge_report ← call_or_fail r "POWER" "power_supply read failed: " r.read_charge_report
    write_value r "POWER" 0x0F charge_report
    delay r 100
    low ← read_value r "POWER" 0x08
    high ← read_value r "POWER" 0x09
    let millivolts = high + low * 256
    expect r "POWER" (ltb 4500 millivolts)
        (concat "5VOUT is below threshold: " (concat (r.to_string millivolts) " mV"))
    pass_item r power_item (concat (r.to_string millivolts) " mV")

  unfoldable pub run_i2c : Stage r (Unit {0})
  run_i2c = do
    begin_item r i2c_item "Register read/write"
    original ← read_reg r "I2C" 0x02 2
    write_reg r "I2C" 0x02 (0xA5 ∷ 0x5A ∷ [])
    delay r 20
    readback ← read_reg r "I2C" 0x02 2
    expect r "I2C" (same_bytes readback (0xA5 ∷ 0x5A ∷ []))
        (concat "register 0x02 mismatch: " (hex_bytes readback))
    write_reg r "I2C" 0x02 (0x0F ∷ 0xF0 ∷ [])
    write_value r "I2C" 0x01 0x02
    delay r command_delay_ms
    status ← otherwise r (read_value r "I2C" 0x03) "I2C" "CAP I2C command did not report PASS"
    expect r "I2C" (status == 0x02) "CAP I2C command did not report PASS"
    pass_item r i2c_item "0xA55A verified"

  -- The part of run_grove_i2c_ on the Grove channel.
  unfoldable pub grove_i2c_command : Stage r (Unit {0})
  grove_i2c_command = do
    write_value r "GROVE-I2C" 0x01 0x02
    delay r command_delay_ms
    status ←
        otherwise r (read_value r "GROVE-I2C" 0x03) "GROVE-I2C"
          "CAP Grove I2C command did not report PASS"
    expect r "GROVE-I2C" (status == 0x02) "CAP Grove I2C command did not report PASS"

  unfoldable pub run_grove_i2c : Stage r (Unit {0})
  run_grove_i2c = do
    begin_item r grove_i2c_item "Switch and verify Grove I2C"
    call_or_fail r "GROVE-I2C" "Grove 5V enable failed: " (r.set_grove_5v_enabled true)
    otherwise r (delay r grove_power_settle_ms) "GROVE-I2C" "Grove 5V enable failed: "
    write_value r "GROVE-I2C" 0x01 0x08
    change_model r (λ m. record m { cap_grove_i2c_active = true })
    delay r 200
    call_or_fail r "GROVE-I2C" "Grove I2C host mux switch failed: "
        (r.set_external_bus_i2c_mode true)
    change_model r (λ m. record m { host_external_uart_selected = false })
    delay r grove_i2c_switch_delay_ms
    grove_i2c_command
    write_value r "GROVE-I2C" 0x01 0x08
    delay r 200
    delay r channel_switch_delay_ms
    change_model r (λ m. record m { cap_grove_i2c_active = false })
    call_or_fail r "GROVE-I2C" "failed to restore grove_fun=0 after Grove I2C: "
        r.set_external_bus_uart_mode
    otherwise r (delay r sysfs_switch_delay_ms) "GROVE-I2C"
        "failed to restore grove_fun=0 after Grove I2C: "
    wait_for_idle r "GROVE-I2C" channel_switch_timeout_ms
        "CAP HAT I2C channel switch did not return IDLE"
    change_model r (λ m. record m { host_external_uart_selected = true })
    pass_item r grove_i2c_item "Channel switch + command OK"

  unfoldable pub run_spi : Stage r (Unit {0})
  run_spi = do
    begin_item r spi_item "/dev/spidev0.1 @ 1 MHz"
    write_value r "SPI" 0x01 0x05
    delay r command_delay_ms
    rx ← call_or_fail r "SPI" "" (r.spi_transfer spi_tx 1000000)
    expect r "SPI" (same_bytes rx spi_expected) (concat "MISO payload mismatch: " (hex_bytes rx))
    delay r 50
    cap_received ← read_reg r "SPI" 0x25 10
    cap_replied ← read_reg r "SPI" 0x2F 10
    pass_item r spi_item "10-byte transfer OK"
