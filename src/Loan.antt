-- ===== src/Loan.antt =====
-- internal/loan: the amounts, dates and records that every other part shares.
pub mod Money
pub mod Date
pub mod Model
