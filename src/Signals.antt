-- ===== src/Signals.antt =====
-- Trading signals (app/signals): the records, the lifecycle of triggered signals, the router.
pub mod Models
pub mod Lifecycle
pub mod Router
