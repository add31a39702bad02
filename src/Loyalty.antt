-- ===== src/Loyalty.antt =====
-- apps/loyalty-service: achievement rules, unlocking, badges.
pub mod Rules
pub mod Unlock
pub mod Badges
pub mod Available
pub mod Service
pub mod Admin
pub mod Seed
pub mod Tests
