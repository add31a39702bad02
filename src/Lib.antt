-- ===== src/Lib.antt =====
-- A model of the Bumpa achievement system: a purchase is announced, the loyalty service counts it and
-- unlocks achievements and badges, and the cashback service pays for each badge. The services talk
-- through events, which each stores in an outbox with its own tables and publishes afterwards.
--
-- Events: packages/events-sdk/src, the contracts of the events, and the outbox row.
-- Purchase: apps/purchase-service/src/purchases/purchase.service.ts, `createPurchase` over the interface
--   PurchaseDatabase.
-- Broker: packages/broker-sdk/src/broker.service.ts. Consume is `handleMessage` with its retries,
--   Connection the reconnects, as a step relation on the service's fields, Topology the calls that
--   `subscribe` and `connectAndSetup` make of RabbitMQ.
-- Outbox: packages/outbox-sdk/src/outbox.service.ts. `publish_by_id`, `publish_many` and
--   `publish_pending_batch` are its methods; the table is the interface OutboxRepository, and the
--   argument `confirm` tells how each publication ends: acked and saved, not acked, or acked while the
--   save of PUBLISHED fails. Scheduled is the publisher of
--   scheduled-outbox.publisher.ts in several processes that share the lock in Redis: each await of
--   `publishPending` is a step, and a sequence of events interleaves them.
-- Gateway: apps/api-gateway/src. Routes is gateway.controller.ts with the routes of the services
--   behind it, Access the guard and the check of identifiers, Client the HTTP client with its
--   retries, Correlation its headers, Envelope response.interceptor.ts, Errors http-exception.filter.ts.
-- Logging: packages/logger-sdk/src, the line that is logged for a request and the correlation
--   identifier.
-- Json: packages/events-sdk/src/json.ts.
-- Paging: the paged lists of the loyalty and the cashback service, over the interface PagedTable.
-- Loyalty: apps/loyalty-service/src. Rules is the rule engine and the validator of rules, Unlock the
--   loop that unlocks achievements, Badges `unlockBadges` and `getBadgeState`, Available
--   `getAchievementState`, Service the consumer `handlePurchaseCompleted` over the interface
--   LoyaltyDatabase, Admin the requests of `AdminConfigService`: Requests and Changes create and
--   update groups, achievements and badges, Catalog has the lists and `getCatalog`.
--   Seed is the seeder of config/loyalty-config-seeder.service.ts over the interface SeedDatabase,
--   with the defaults.
-- Cashback: apps/cashback-service/src. Payments is the classification of failures and the providers,
--   Store the rows and the interface CashbackDatabase, Jobs the consumer `handleBadgeUnlocked`, Pay
--   the worker `processPayment`, Retry the retries by hand and by the scan, Webhook the reports of
--   Paystack, Listing `listTransactions`, Banks the list of banks of payments/banks.service.ts.
-- Common: the lemmas that these share. Tests of each part stand in its module Tests, with tables
--   that have the laws of the interfaces.
--
-- A service is a function on an explicit state. PostgreSQL behind TypeORM is an interface with laws:
-- what a saved or updated row reads back as, which rows a query finds. An entity's property that is
-- undefined is not written. A transaction commits or leaves nothing; which of the two is an argument.
-- Random identifiers and the clock are functions of a counter in the state. The broker, Paystack's
-- API, the digest of a signature and the decoding of hexadecimal text are functions too. Numbers are
-- natural numbers: amounts, counts and times are not negative in the code.
--
-- The unlock loop has fuel, a turn for each active config and one more; the deliveries of a message have
-- six runs; a forwarded request has three attempts. Each is shown to be enough.
--
-- Not modelled: the checks of bodies and queries, which a library runs (the gateway's answer to them
-- is an argument), the configuration from the environment, migrations, the format of the log. Two
-- jobs run one after the other here, except where a theorem speaks of any state in between, and in
-- the scheduled publisher. The other statements on a database succeed, except where an argument says
-- how a transaction ends; a process that stops between two statements is modelled in the scheduled
-- publisher alone.
pub mod Broker
pub mod Cashback
pub mod Common
pub mod Events
pub mod Gateway
pub mod Json
pub mod Logging
pub mod Loyalty
pub mod Outbox
pub mod Paging
pub mod Purchase
