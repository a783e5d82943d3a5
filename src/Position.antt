-- ===== src/Position.antt =====
-- internal/position: which source answers for a loan on a date.
pub mod Schedule
pub mod Service
pub mod Resolve
