-- ===== src/Analytics.antt =====
-- The analytics of deliveries and requests: internal/app/analytics.go.
pub mod State
pub mod Tables
pub mod Worker
mod Tests
