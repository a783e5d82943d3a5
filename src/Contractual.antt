-- ===== src/Contractual.antt =====
-- internal/contractual: the calculator that reconstructs a flat-rate loan from its opening balance.
pub mod State
pub mod Repayments
pub mod Schedule
pub mod Timeline
pub mod Calculator
