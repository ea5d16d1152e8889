-- ===== src/Storage.antt =====
-- The repositories (app/storage/repositories.py). A table is the list of its rows; the statements
-- that the code builds with SQLAlchemy stand for their SQL meaning on it, and sessions, commits and
-- the columns that the database fills in itself (ids, insertion times) are left out.
pub mod Klines
pub mod Signals
pub mod RiskState
pub mod States
