-- ===== src/Power.antt =====
-- relay/power: the interface of a power backend and its implementations.
pub mod Backend
pub mod Noop
pub mod Bmc
pub mod Redfish
pub mod Retries
