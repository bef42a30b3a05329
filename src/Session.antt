-- ===== src/Session.antt =====
-- The streaming session of a connection: app/session/state.py.
pub mod State
pub mod Output
pub mod Dispatch
pub mod Results
pub mod Lifecycle
pub mod Steady
pub mod Kept
pub mod Order
pub mod Handling
pub mod Scheduling
pub mod Withdrawing
pub mod Ingest
pub mod Hearing
pub mod Refusing
pub mod Select
pub mod Selection
pub mod Histories
mod Samples
