-- ===== src/Dashboard.antt =====
-- internal/dashboard: the pages of the dashboard, as far as they do not make HTML.
pub mod Range
pub mod Format
pub mod Page
pub mod Handlers
pub mod Settings
pub mod Templates
pub mod Chart
pub mod Download
pub mod Admin
