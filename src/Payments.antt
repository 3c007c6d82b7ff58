-- ===== src/Payments.antt =====
-- The payments module of the backend (backend/app/modules/payments).
pub mod Models
pub mod Service
