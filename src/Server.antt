-- ===== src/Server.antt =====
-- relay/servers.py, one module for each part.
pub mod Runtime
pub mod Shutdown
pub mod Safety
pub mod Schedule
pub mod Deferral
pub mod Events
pub mod Mirror
pub mod Restart
pub mod Frames
pub mod Cooldown
pub mod Ownership
