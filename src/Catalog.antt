-- ===== src/Catalog.antt =====
-- The catalog module of the backend (backend/app/modules/catalog).
pub mod Models
pub mod Inventory
pub mod Categories
pub mod Products
pub mod Requests
pub mod Search
