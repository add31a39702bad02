-- ===== src/Broker/Consume.antt =====
-- packages/broker-sdk/src/broker.service.ts: `handleMessage`. RabbitMQ is outside: `up n` tells whether
-- the channel takes the n-th call that is made on it. What the calls bring about is recorded: the
-- messages that are acknowledged, dead-lettered, and put on the retry queue with their delay.
pub mod Settled
use bumpa_achievement_system.Common.{
  ℕ, ◌+◌, ◌*◌, ◌^◌, Bool, true, false, Option, none, some, List, ◌∷◌, if◌then◌else◌, leb, min,
}

abbrev pub max_retry_attempts : ℕ
max_retry_attempts = 5

abbrev pub retry_base_delay_ms : ℕ
retry_base_delay_ms = 1000

abbrev pub max_retry_delay_ms : ℕ
max_retry_delay_ms = 30000

-- A message with the event that its content parses to, if it does, and the number in its header
-- x-bumpa-retry-count, if there is one.
pub record Message (E : Type 0) : Type 0 where
  pub content : Option E
  pub retry_count : Option ℕ

pub record Settlements (E : Type 0) : Type 0 where
  pub acked : List (Message E)
  pub dead_lettered : List (Message E)
  pub delayed : List (Message E × ℕ)
  pub calls : ℕ

abbrev pub read_retry_count : Option ℕ → ℕ
read_retry_count none = 0
read_retry_count (some n) = n

unfoldable pub delay_ms : ℕ → ℕ
delay_ms retry_count = min (retry_base_delay_ms * 2 ^ retry_count) max_retry_delay_ms

module _ {E : Type 0} (up : ℕ → Bool) where
  -- safeAck and safeNack: a channel that does not take the call leaves the message to RabbitMQ.
  pub safe_ack : Message E → Settlements E → Settlements E
  safe_ack m s =
      if up s.calls
      then record s { acked = m ∷ s.acked; calls = s.calls + 1 }
      else record s { calls = s.calls + 1 }

  pub safe_nack : Message E → Settlements E → Settlements E
  safe_nack m s =
      if up s.calls
      then record s { dead_lettered = m ∷ s.dead_lettered; calls = s.calls + 1 }
      else record s { calls = s.calls + 1 }

  pub schedule_redelivery : Message E → ℕ → ℕ → Settlements E → Settlements E × Bool
  schedule_redelivery m next_retry_count delay s =
      if up s.calls
      then (
        record s {
          delayed = (record m { retry_count = some next_retry_count }, delay) ∷ s.delayed;
          calls = s.calls + 1;
        },
        true,
      )
      else (record s { calls = s.calls + 1 }, false)

  settle_scheduled : Message E → Settlements E × Bool → Settlements E
  unfolding safe_ack safe_nack
  settle_scheduled m (s, scheduled) = if scheduled then safe_ack m s else safe_nack m s

  -- The handler has thrown.
  pub retry_or_dead_letter : Message E → ℕ → Settlements E → Settlements E
  unfolding safe_nack schedule_redelivery settle_scheduled
  retry_or_dead_letter m retry_count s =
      if leb max_retry_attempts retry_count
      then safe_nack m s
      else settle_scheduled m (schedule_redelivery m (retry_count + 1) (delay_ms retry_count) s)

  pub handle_event : (E → Bool) → Message E → Option E → Settlements E → Settlements E
  unfolding safe_ack retry_or_dead_letter
  handle_event handler m none s = safe_nack m s
  handle_event handler m (some e) s =
      if handler e then safe_ack m s else retry_or_dead_letter m (read_retry_count m.retry_count) s

  -- handleMessage; `handler e` tells whether the handler returns on the event, else it throws.
  unfoldable pub handle_message : (E → Bool) → Message E → Settlements E → Settlements E
  unfolding handle_event
  handle_message handler m s = handle_event handler m m.content s
