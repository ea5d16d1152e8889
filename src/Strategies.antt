-- ===== src/Strategies.antt =====
-- The strategies (app/strategies): what they share, and the strategy above a level.
pub mod Base
pub mod StandAbove
pub mod MicroRules
pub mod OrbRetest
