-- ===== src/AppConfig.antt =====
-- src/model/app_config.cpp: the configuration file, how it is read, repaired and replaced.
pub mod Types
pub mod Atomic
pub mod Reading
pub mod Store
pub mod Validity
pub mod Kept
pub mod Replaced
pub mod Loaded
pub mod Saved
pub mod Again
