-- ===== src/Gateway.antt =====
-- apps/api-gateway: the public entry, which checks requests and forwards them to the services.
pub mod Client
pub mod Access
pub mod Routes
pub mod Envelope
pub mod Errors
pub mod Correlation
mod Tests
