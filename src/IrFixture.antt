-- ===== src/IrFixture.antt =====
-- src/model/ir_fixture_test_model.cpp: the test of the infrared transmitter and receiver with a fixture.
pub mod Types
pub mod Steps
pub mod Model
pub mod Judging
pub mod Calls
pub mod Heard
pub mod Outcomes
pub mod Replies
pub mod Shown
pub mod Ends
