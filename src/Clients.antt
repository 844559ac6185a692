-- ===== src/Clients.antt =====
-- relay/clients.py, one module for each part.
pub mod Detect
pub mod Poller
pub mod Sharing
pub mod Ancestors
pub mod Blocked
