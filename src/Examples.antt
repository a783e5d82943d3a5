-- ===== src/Examples.antt =====
-- Concrete inputs, at which the theorems of the library are applied and the code is run.
pub mod Data
mod Loans
mod Calculations
mod Positions
mod Jobs
mod Snapshots
mod Runs
mod Pages
mod Logins
mod Access
mod Reports
mod Contracts
