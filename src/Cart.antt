-- ===== src/Cart.antt =====
-- The cart module of the backend (backend/app/modules/cart).
pub mod Models
pub mod Service
