-- ===== src/Session.antt =====
-- src/model/test_session.cpp: one run of the factory test sequence, kept in memory and in a file.
pub mod Types
pub mod Document
pub mod Manager
pub mod Progress
pub mod Start
pub mod Saving
pub mod Effects
pub mod Endings
pub mod Finish
pub mod Completion
pub mod Summary
pub mod Calls
pub mod Changes
pub mod Soundness
pub mod Histories
pub mod Plans
pub mod Load
pub mod Latest
pub mod Reading
