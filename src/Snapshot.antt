-- ===== src/Snapshot.antt =====
-- internal/snapshot: the positions of today.
pub mod Columns
pub mod Refresh
