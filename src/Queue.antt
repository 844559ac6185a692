-- ===== src/Queue.antt =====
-- relay/queue.py, one module for each part.
pub mod State
pub mod Admission
pub mod Lifecycle
pub mod Invariant
pub mod Promotion
pub mod Validity
pub mod Order
pub mod Accounting
pub mod Deadlines
pub mod Running
pub mod Orphan
pub mod Runs
pub mod Wait
