-- ===== src/Queue/Validity.antt =====
-- relay/queue.py: the operations keep an `EndpointQueue` well formed, one module for each.
pub mod Promote
pub mod Write
pub mod Sessions
pub mod Waiting
pub mod Spots
pub mod Tick
