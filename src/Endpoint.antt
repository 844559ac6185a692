-- ===== src/Endpoint.antt =====
-- relay/endpoints.py: `EndpointRuntime`, one module for each part.
pub mod Readiness
pub mod Admission
pub mod Socket
pub mod Tunnel
pub mod Settled
pub mod Gates
pub mod Polling
pub mod Manager
pub mod Polled
pub mod Managed
pub mod Freed
pub mod Surrender
