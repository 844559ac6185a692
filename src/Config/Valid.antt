-- ===== src/Config/Valid.antt =====
-- relay/config.py: what a configuration is that the loader accepts.
pub mod Helpers
pub mod Parts
pub mod Power
pub mod Entries
pub mod Whole
