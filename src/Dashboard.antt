-- ===== src/Dashboard.antt =====
-- internal/dashboard/handler.go: the administration of the gateway.
pub mod Pulls
pub mod Routes
pub mod Access
pub mod Catalog
pub mod Servers
pub mod Forms
