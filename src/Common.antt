-- ===== src/Common.antt =====
-- backend/app/common and backend/app/security: what all routes share.
pub mod Idempotency
pub mod Permissions
pub mod Pagination
pub mod Csrf
