-- ===== src/Auth.antt =====
-- backend/app/modules/auth: the sessions and credentials of a user.
pub mod Models
pub mod Service
pub mod Accounts
pub mod Access
pub mod Router
