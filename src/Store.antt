-- ===== src/Store.antt =====
-- relay/store.py: `Store`.
pub mod Buffer
pub mod Tables
pub mod Retention
pub mod Queries
pub mod Pruned
pub mod Sessions
pub mod Reconcile
pub mod Persisted
pub mod Mirrored
