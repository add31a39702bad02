-- ===== src/Cashback/Jobs.antt =====
-- apps/cashback-service/src/cashback/cashback.service.ts: the state of the worker, and
-- `handleBadgeUnlocked`, the consumer of BadgeUnlocked.v1. The queue is BullMQ's: it is seen as the
-- list of the jobs that were added.
pub mod Once
use bumpa_achievement_system.Common.{
  ℕ, ◌+◌, String, Bool, true, false, Option, none, some, List, [], ◌∷◌, ◌++◌, if◌then◌else◌,
}
use bumpa_achievement_system.Events.{
  Env, BadgeUnlockedEvent, CashbackProcessedPayload, DomainEvent, Outcome, successful, failed,
  cashback_processed, create_domain_event, create_outbox_event, cashback_event, OutboxEvent,
  EntityIdPrefix,
}
use bumpa_achievement_system.Outbox.{Confirmation, OutboxRepository, OutboxOptions, OutboxState}
use bumpa_achievement_system.Cashback.Payments.{CashbackPaymentRequest}
use bumpa_achievement_system.Cashback.Store.{
  CashbackDatabase, CashbackTransaction, undefined, value, of_column, pending,
}

-- CashbackJob
pub record CashbackJob : Type 0 where
  pub transaction_id : String
  pub event : BadgeUnlockedEvent

-- `calls` numbers the calls of the provider's API, `requests` records what the provider was asked.
module _ (database : CashbackDatabase) (repository : OutboxRepository) where
  pub record CashbackState : Type 0 where
    pub tables : database.Tables
    pub outbox : OutboxState repository
    pub queue : List CashbackJob
    pub requests : List CashbackPaymentRequest
    pub calls : ℕ
    pub drawn : ℕ

abbrev pub or_empty : Option String → String
or_empty none = ""
or_empty (some s) = s

-- The details are announced for a failure alone.
abbrev pub if_failed {ℓ} : {A : Type ℓ} → Outcome → Option A → Option A
if_failed successful o = none
if_failed failed o = o

module _ (env : Env) where
  -- The event that saveCashbackProcessedEvent saves, with the identifier of the n-th draw.
  pub cashback_processed_event :
      CashbackTransaction → String → Outcome → ℕ → DomainEvent CashbackProcessedPayload
  cashback_processed_event transaction correlation_id status n =
      create_domain_event cashback_processed
        (record {
          badge_name = transaction.badge_name;
          user_id = transaction.user_id;
          amount_kobo = transaction.amount_kobo;
          provider_reference = or_empty (of_column transaction.provider_reference);
          status = status;
          failure_code = if_failed status (of_column transaction.failure_code);
          failure_reason = if_failed status (of_column transaction.failure_reason);
          retryable = if_failed status (of_column transaction.retryable);
        })
        correlation_id (env.create_readable_id EntityIdPrefix.event n) (env.now n)

  -- The outbox row that it saves; its identifier is the event's.
  pub processed_row : CashbackTransaction → String → Outcome → ℕ → OutboxEvent
  unfolding cashback_processed_event
  processed_row transaction correlation_id status n =
      let e = cashback_processed_event transaction correlation_id status n in
      create_outbox_event e.event_id e.type (cashback_event e)

module _ (database : CashbackDatabase) (repository : OutboxRepository) (options : OutboxOptions)
    (confirm : ℕ → Confirmation) (clock : ℕ → ℕ) (env : Env) (provider_name : String)
    (default_amount : ℕ) where
  abbrev State : Type 0
  State = CashbackState database repository

  -- event.payload.rewardAmountKobo ?? getNumberEnv(EnvKey.CashbackAmountKobo, 30000)
  amount_of : Option ℕ → ℕ
  amount_of none = default_amount
  amount_of (some kobo) = kobo

  -- existing ?? manager.create(CashbackTransaction, …)
  pub transaction_for : BadgeUnlockedEvent → Option CashbackTransaction → ℕ → CashbackTransaction
  unfolding amount_of
  transaction_for e none n = record {
    id = env.create_readable_id EntityIdPrefix.cashback n;
    user_id = e.payload.user.id;
    badge_name = e.payload.badge_name;
    amount_kobo = amount_of e.payload.reward_amount_kobo;
    status = pending;
    provider = provider_name;
    provider_reference = undefined;
    provider_recipient_code = undefined;
    correlation_id = value e.correlation_id;
    failure_reason = undefined;
    failure_code = undefined;
    retryable = undefined;
    retry_count = 0;
    next_retry_at = undefined;
  }
  transaction_for e (some existing) n = existing

  -- The transaction of the handler; the job is added inside it.
  pub queue_cashback : BadgeUnlockedEvent → State → State
  unfolding transaction_for
  queue_cashback e s =
      let transaction =
        transaction_for e (database.find_by_badge e.payload.user.id e.payload.badge_name s.tables)
          s.drawn in
      record s {
        tables =
            database.save_processed e.event_id (database.save_transaction transaction s.tables);
        queue = s.queue ++ record { transaction_id = transaction.id; event = e } ∷ [];
        drawn = s.drawn + 1;
      }

  -- handleBadgeUnlocked. `commits` tells whether the transaction commits; if not, the handler throws,
  -- the tables stay, and the job that was added stays in the queue.
  unfoldable pub handle_badge_unlocked : Bool → BadgeUnlockedEvent → State → State × Bool
  unfolding queue_cashback
  handle_badge_unlocked commits e s =
      if database.processed e.event_id s.tables
      then (s, true)
      else let queued = queue_cashback e s in
        if commits then (queued, true) else (record queued { tables = s.tables }, false)
