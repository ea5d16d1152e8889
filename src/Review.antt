-- ===== src/Review.antt =====
-- The reviews (app/review): the contract of a decision of the language model and its checks.
pub mod Decision
