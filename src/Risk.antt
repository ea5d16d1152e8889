-- ===== src/Risk.antt =====
-- Risk rules (app/risk).
pub mod Levels
pub mod BtcFilter
pub mod Cooldown
pub mod Portfolio
mod Tests
