-- ===== src/Integrations.antt =====
-- Clients of outside services (backend/app/integrations).
pub mod Zarinpal
pub mod GoogleOauth
