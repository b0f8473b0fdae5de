-- ===== src/CapFixture/Constants.antt =====
-- src/model/cap_fixture_test_model.cpp: the items, the times in milliseconds and the ids.
use factory_test.Common.{ℕ}

abbrev pub power_item : ℕ
power_item = 0

abbrev pub i2c_item : ℕ
i2c_item = 1

abbrev pub grove_i2c_item : ℕ
grove_i2c_item = 2

abbrev pub uart_item : ℕ
uart_item = 3

abbrev pub grove_uart_item : ℕ
grove_uart_item = 4

abbrev pub spi_item : ℕ
spi_item = 5

abbrev pub usb_item : ℕ
usb_item = 6

abbrev pub gpio_item : ℕ
gpio_item = 7

abbrev pub usb_vendor_id : ℕ
usb_vendor_id = 0x303A

abbrev pub usb_product_id : ℕ
usb_product_id = 0x4005

abbrev pub feature_guard_delay_ms : ℕ
feature_guard_delay_ms = 100

abbrev pub command_delay_ms : ℕ
command_delay_ms = 100

abbrev pub software_reset_delay_ms : ℕ
software_reset_delay_ms = 2000

abbrev pub software_reset_retry_ms : ℕ
software_reset_retry_ms = 200

abbrev pub software_reset_attempts : ℕ
software_reset_attempts = 5

abbrev pub channel_switch_delay_ms : ℕ
channel_switch_delay_ms = 200

abbrev pub channel_switch_timeout_ms : ℕ
channel_switch_timeout_ms = 2000

abbrev pub grove_uart_signal_stable_delay_ms : ℕ
grove_uart_signal_stable_delay_ms = 200

abbrev pub uart_command_ready_timeout_ms : ℕ
uart_command_ready_timeout_ms = 1000

abbrev pub uart_command_ready_poll_delay_ms : ℕ
uart_command_ready_poll_delay_ms = 100

abbrev pub grove_i2c_switch_delay_ms : ℕ
grove_i2c_switch_delay_ms = 3000

abbrev pub fixture_power_settle_ms : ℕ
fixture_power_settle_ms = 300

abbrev pub grove_power_settle_ms : ℕ
grove_power_settle_ms = 300

abbrev pub sysfs_switch_delay_ms : ℕ
sysfs_switch_delay_ms = 150

abbrev pub usb_function_settle_delay_ms : ℕ
usb_function_settle_delay_ms = 500

abbrev pub usb_initial_enum_timeout_ms : ℕ
usb_initial_enum_timeout_ms = 6000

abbrev pub usb_recovery_enum_timeout_ms : ℕ
usb_recovery_enum_timeout_ms = 6000

abbrev pub usb_hub_reset_settle_delay_ms : ℕ
usb_hub_reset_settle_delay_ms = 500

abbrev pub inter_test_delay_ms : ℕ
inter_test_delay_ms = 1000

abbrev pub grove_i2c_to_uart_delay_ms : ℕ
grove_i2c_to_uart_delay_ms = 1500

abbrev pub gpio_hold_refresh_ms : ℕ
gpio_hold_refresh_ms = 10

abbrev pub gpio_sample_count : ℕ
gpio_sample_count = 5

abbrev pub gpio_sample_interval_ms : ℕ
gpio_sample_interval_ms = 100
