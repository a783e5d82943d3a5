-- ===== src/Lps.antt =====
-- internal/lps: the report on deposits and loans to the deposit insurer.
pub mod Csv
pub mod Lines
pub mod Written
pub mod Counts
pub mod Codes
pub mod Fields
pub mod Customers
pub mod Complete
pub mod Covered
pub mod Live
pub mod Sources
pub mod Accounts
pub mod Details
pub mod Generator
pub mod Rows
pub mod Added
