-- ===== src/Reports.antt =====
-- backend/app/modules/reports: the dashboard and the administration's report.
pub mod Models
pub mod Queries
pub mod Service
pub mod Admin
pub mod Series
pub mod Agreement
