-- ===== src/Cashback.antt =====
-- apps/cashback-service: payments of cashback for unlocked badges.
pub mod Payments
pub mod Store
pub mod Jobs
pub mod Pay
pub mod Retry
pub mod Webhook
pub mod Banks
pub mod Listing
pub mod Tests
