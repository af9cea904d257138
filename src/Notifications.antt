-- ===== src/Notifications.antt =====
-- The notification pipeline (src/infrastructure/notifications).
pub mod Context
pub mod Stages
pub mod Pipeline
pub mod Validation
pub mod Address
pub mod Reported
pub mod Deduplication
pub mod Retry
pub mod Delivery
mod Tests
pub mod DeliveryLog
pub mod Providers
pub mod Dispatch
pub mod Webhook
