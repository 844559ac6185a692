-- ===== src/Tests.antt =====
-- The theorems at concrete inputs, one module for each part of the program.
pub mod Queues
mod Deadlines
mod Servers
pub mod Endpoints
mod Others
pub mod Configs
mod Apps
mod Stores
mod Managers
