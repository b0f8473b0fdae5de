-- ===== src/CapFixture.antt =====
-- src/model/cap_fixture_test_model.h and .cpp: the test of the CAP fixture, a sequence of eight stages
-- that talk to the fixture over I2C, UART, SPI, USB and GPIO.
pub mod Constants
pub mod Types
pub mod Frames
pub mod Stage
pub mod Outcomes
pub mod Steps
pub mod Moved
pub mod Items
pub mod Staged
pub mod Timely
pub mod Serial
pub mod Buses
pub mod Uart
pub mod Lines
pub mod Run
