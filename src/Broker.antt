-- ===== src/Broker.antt =====
-- packages/broker-sdk/src/broker.service.ts: the consumer of a queue with its retries, and the
-- connection with its reconnects.
pub mod Consume
pub mod Connection
pub mod Topology
pub mod Tests
