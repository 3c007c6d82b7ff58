-- ===== src/Users.antt =====
-- The users module of the backend (backend/app/modules/users).
pub mod Models
pub mod Admin
