-- ===== src/Login.antt =====
-- internal/browserauth: signing in.
pub mod Lockout
