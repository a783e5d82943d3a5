-- ===== src/Platform.antt =====
-- internal/platform: what the pages of the application share.
pub mod Pagination
