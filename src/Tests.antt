-- ===== src/Tests.antt =====
-- The theorems of the development at concrete inputs.
pub mod Scheduling
pub mod Routing
pub mod Access
pub mod Limits
pub mod Usage
pub mod Reloading
pub mod Credentials
pub mod Accounts
pub mod Proxying
pub mod Services
pub mod Catalogs
pub mod Dashboards
