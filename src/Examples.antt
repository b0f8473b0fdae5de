-- ===== src/Examples.antt =====
-- The library's statements at concrete inputs, and the outside world that they run in.
pub mod ConfigDisk
pub mod Disk
pub mod Inputs
mod Fixture
mod Sessions
mod Written
mod Packets
mod Benches
mod Loads
mod Menus
mod Settings
mod Texts
mod Hardware
mod IrRuns
