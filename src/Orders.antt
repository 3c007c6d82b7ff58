-- ===== src/Orders.antt =====
-- The orders module of the backend (backend/app/modules/orders).
pub mod Models
pub mod Service
pub mod Router
