-- ===== src/Access.antt =====
-- internal/access, internal/user, internal/auth, internal/features/users and internal/browserauth: who
-- may use the application.
pub mod Tables
pub mod Users
pub mod Sessions
pub mod Management
pub mod Bootstrap
pub mod Login
pub mod Resolved
pub mod Known
pub mod Tokens
pub mod Granted
pub mod Entries
pub mod Book
pub mod Managers
