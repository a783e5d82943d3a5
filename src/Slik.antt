-- ===== src/Slik.antt =====
-- internal/slik: the jobs that fill in workbooks.
pub mod Store
pub mod Progress
pub mod Manager
