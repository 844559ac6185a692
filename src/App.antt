-- ===== src/App.antt =====
-- relay/main.py: the assembled application and its handlers.
pub mod Setup
pub mod Wiring
pub mod Wired
pub mod Relay
pub mod Dispatch
pub mod Actions
pub mod Adoption
pub mod Handled
pub mod Effects
pub mod Health
