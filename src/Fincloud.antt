-- ===== src/Fincloud.antt =====
-- internal/fincloud: what the new core system says of a loan.
pub mod Decimal
pub mod Contract
pub mod Resolve
