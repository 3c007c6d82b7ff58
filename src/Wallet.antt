-- ===== src/Wallet.antt =====
-- The wallet module of the backend (backend/app/modules/wallet).
pub mod Models
pub mod Service
