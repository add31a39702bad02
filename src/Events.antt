-- ===== src/Events.antt =====
-- packages/events-sdk/src: the event contracts that the services share (enums.ts, events.ts), and
-- the outbox row that carries an event (entities/outbox-event.entity.ts of each service).
use bumpa_achievement_system.Common.{ℕ, String, Bool, Option, none}

pub data DomainEventName : Type 0 where
  purchase_completed achievement_unlocked badge_unlocked cashback_processed : DomainEventName

pub data EventVersion : Type 0 where
  v1 : EventVersion

pub data EntityIdPrefix : Type 0 where
  user purchase achievement user_achievement badge user_badge event cashback payout_account :
      EntityIdPrefix

pub data OutboxStatus : Type 0 where
  pending publishing published failed : OutboxStatus

pub data CashbackFailureCode : Type 0 where
  missing_bank_details invalid_account insufficient_balance duplicate_reference :
      CashbackFailureCode
  provider_unavailable provider_rejected provider_misconfigured : CashbackFailureCode

-- What the process takes from outside: `createReadableId` draws random identifiers, here the n-th
-- draw, and `new Date()` reads the clock, here at the n-th draw.
pub record Env : Type 0 where
  pub create_readable_id : EntityIdPrefix → ℕ → String
  pub now : ℕ → ℕ

pub record DomainEvent (P : Type 0) : Type 0 where
  pub event_id : String
  pub type : DomainEventName
  pub version : EventVersion
  pub occurred_at : ℕ
  pub correlation_id : String
  pub payload : P

-- The bank details are `none` where they are null or undefined.
pub record UserSnapshot : Type 0 where
  pub id : String
  pub email : String
  pub name : String
  pub bank_account_number : Option String
  pub bank_code : Option String

pub record PurchaseCompletedPayload : Type 0 where
  pub user_id : String
  pub purchase_id : String
  pub amount_kobo : ℕ
  pub user : UserSnapshot

pub record AchievementUnlockedPayload : Type 0 where
  pub achievement_name : String
  pub user : UserSnapshot

pub record BadgeUnlockedPayload : Type 0 where
  pub badge_name : String
  pub reward_amount_kobo : Option ℕ
  pub reward_currency : String
  pub user : UserSnapshot

-- The two outcomes that are announced.
pub data Outcome : Type 0 where
  successful failed : Outcome

pub record CashbackProcessedPayload : Type 0 where
  pub badge_name : String
  pub user_id : String
  pub amount_kobo : ℕ
  pub provider_reference : String
  pub status : Outcome
  pub failure_code : Option CashbackFailureCode
  pub failure_reason : Option String
  pub retryable : Option Bool

abbrev pub PurchaseCompletedEvent : Type 0
PurchaseCompletedEvent = DomainEvent PurchaseCompletedPayload

abbrev pub BadgeUnlockedEvent : Type 0
BadgeUnlockedEvent = DomainEvent BadgeUnlockedPayload

pub data BumpaDomainEvent : Type 0 where
  purchase_event : PurchaseCompletedEvent → BumpaDomainEvent
  achievement_event : DomainEvent AchievementUnlockedPayload → BumpaDomainEvent
  badge_event : BadgeUnlockedEvent → BumpaDomainEvent
  cashback_event : DomainEvent CashbackProcessedPayload → BumpaDomainEvent

-- createDomainEvent; the clock's value is passed.
abbrev pub create_domain_event :
    {P : Type 0} → DomainEventName → P → String → String → ℕ → DomainEvent P
create_domain_event type payload correlation_id event_id now = record {
  event_id = event_id;
  type = type;
  version = v1;
  occurred_at = now;
  correlation_id = correlation_id;
  payload = payload;
}

pub record OutboxEvent : Type 0 where
  pub id : String
  pub event_type : DomainEventName
  pub routing_key : DomainEventName
  pub payload : BumpaDomainEvent
  pub status : OutboxStatus
  pub attempts : ℕ
  pub last_error : Option String
  pub published_at : Option ℕ

-- manager.create(OutboxEvent, { id, eventType, routingKey, payload }), with the column defaults.
abbrev pub create_outbox_event : String → DomainEventName → BumpaDomainEvent → OutboxEvent
create_outbox_event id type payload = record {
  id = id;
  event_type = type;
  routing_key = type;
  payload = payload;
  status = pending;
  attempts = 0;
  last_error = none;
  published_at = none;
}
