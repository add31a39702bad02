-- ===== src/Outbox.antt =====
-- packages/outbox-sdk/src/outbox.service.ts: publishing the rows of the transactional outbox. The
-- broker and the database are outside: `confirm n` tells how the n-th call of BrokerService.publish,
-- and the save of PUBLISHED after it, end. The other statements on the database are taken to succeed;
-- when the save in the handler of an error fails too, the row stays PUBLISHING.
mod Repository
pub use Repository.*
pub mod Row
pub mod Sent
pub mod Stuck
pub mod Scheduled
pub mod Tests
use bumpa_achievement_system.Common.{
  ℕ, ◌+◌, String, Bool, true, false, ◌||◌, Option, none, some, List, [], ◌∷◌, if◌then◌else◌, leb,
}
use bumpa_achievement_system.Events.{
  OutboxEvent, OutboxStatus, pending, publishing, published, failed,
}

-- packages/outbox-sdk/src/outbox.types.ts, the options that the service reads.
pub record OutboxOptions : Type 0 where
  pub batch_size : ℕ
  pub max_attempts : ℕ

abbrev pub is_published : OutboxStatus → Bool
is_published published = true
is_published pending = false
is_published publishing = false
is_published failed = false

-- How publishing one event goes: RabbitMQ acks it and the row is saved, the broker's client throws an
-- error with the message, or RabbitMQ acks it and the save throws.
pub data Confirmation : Type 0 where
  acked : Confirmation
  not_acked unsaved : (message : String) → Confirmation

-- The event was accepted: `lastError = undefined` leaves the column to `save`.
abbrev pub succeeded : OutboxEvent → ℕ → OutboxEvent
succeeded event now = record event {
  status = published;
  published_at = some now;
  last_error = none;
}

-- The `try` has thrown: back to PENDING, or FAILED once the attempts run out.
abbrev pub refused : OutboxOptions → OutboxEvent → String → OutboxEvent
refused options event message = record event {
  attempts = event.attempts + 1;
  last_error = some message;
  status = if leb options.max_attempts (event.attempts + 1) then failed else pending;
}

module _ (repository : OutboxRepository) where
  -- The rows, the identifiers of the rows whose event the broker has accepted, newest first, and how
  -- often the broker was called; the clock is read at that count.
  pub record OutboxState : Type 0 where
    pub rows : repository.Rows
    pub sent : List String
    pub calls : ℕ

module _ (repository : OutboxRepository) (options : OutboxOptions) (confirm : ℕ → Confirmation)
    (clock : ℕ → ℕ) where
  open repository use {Rows, find_one, find_pending, save, claim, affected}

  abbrev State : Type 0
  State = OutboxState repository

  -- The ends of the `try` of publishRecord. The entity keeps what it was given before a save fails.
  pub conclude : Confirmation → OutboxEvent → State → State × Bool
  conclude acked event s = (
    record {
      rows = save (succeeded event (clock s.calls)) s.rows;
      sent = event.id ∷ s.sent;
      calls = s.calls + 1;
    },
    true,
  )
  conclude (not_acked message) event s = (
    record {
      rows = save (refused options event message) s.rows;
      sent = s.sent;
      calls = s.calls + 1;
    },
    false,
  )
  conclude (unsaved message) event s = (
    record {
      rows = save (refused options (succeeded event (clock s.calls)) message) s.rows;
      sent = event.id ∷ s.sent;
      calls = s.calls + 1;
    },
    false,
  )

  pub publish_record : OutboxEvent → State → State × Bool
  unfolding conclude
  publish_record event s = conclude (confirm s.calls) event s

  -- claimForPublishing, and what follows it in both callers.
  pub claim_and_publish : OutboxEvent → State → State × Bool
  unfolding publish_record
  claim_and_publish event s =
      let t = record s { rows = claim event.id s.rows } in
      if affected event.id s.rows
      then publish_record (record event { status = publishing }) t
      else (t, false)

  pub publish_found : Option OutboxEvent → State → State × Bool
  unfolding claim_and_publish
  publish_found none s = (s, false)
  publish_found (some event) s =
      if is_published event.status || leb options.max_attempts event.attempts
      then (s, false)
      else claim_and_publish event s

  unfoldable pub publish_by_id : String → State → State × Bool
  unfolding publish_found
  publish_by_id id s = publish_found (find_one id s.rows) s

  unfoldable pub publish_many : List String → State → State
  unfolding publish_by_id
  publish_many [] s = s
  publish_many (id ∷ ids) s = publish_many ids (publish_by_id id s).0

  pub for_events : List OutboxEvent → State → State
  unfolding claim_and_publish
  for_events [] s = s
  for_events (event ∷ events) s = for_events events (claim_and_publish event s).0

  unfoldable pub publish_pending_batch : State → State
  unfolding for_events
  publish_pending_batch s = for_events (find_pending options.batch_size s.rows) s
