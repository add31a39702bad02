-- ===== src/Broker/Connection.antt =====
-- packages/broker-sdk/src/broker.service.ts: `handleConnectionIssue`, `scheduleReconnect` and the
-- steps of `connectAndSetup`, which runs from the timer. It sets the channel, binds the subscriptions
-- again, and then resets the count of attempts; it may fail before or after it has set the channel.
-- Connecting and binding are RabbitMQ's answers, so each is a step of its own.
pub mod Recovers
use bumpa_achievement_system.Common.{
  ℕ, ◌+◌, ◌*◌, ◌^◌, ◌≡◌, Bool, true, false, not, ◌||◌, ◌&&◌, List, [], ◌∷◌, if◌then◌else◌, min,
}

abbrev pub initial_reconnect_delay_ms : ℕ
initial_reconnect_delay_ms = 1000

abbrev pub max_reconnect_delay_ms : ℕ
max_reconnect_delay_ms = 30000

-- Whether there is a channel; the flags and the count of the service; the delays of the timers that
-- have not fired, and how many runs of connectAndSetup have not ended.
pub record Connection : Type 0 where
  pub channel : Bool
  pub shutting_down : Bool
  pub reconnecting : Bool
  pub reconnect_attempt : ℕ
  pub timers : List ℕ
  pub connecting : ℕ

-- After onModuleInit.
abbrev pub connected : Connection
connected = record {
  channel = true;
  shutting_down = false;
  reconnecting = false;
  reconnect_attempt = 0;
  timers = [];
  connecting = 0;
}

unfoldable pub reconnect_delay_ms : ℕ → ℕ
reconnect_delay_ms reconnect_attempt =
    min (initial_reconnect_delay_ms * 2 ^ reconnect_attempt) max_reconnect_delay_ms

unfoldable pub schedule_reconnect : Connection → Connection
schedule_reconnect s = if s.reconnecting || s.shutting_down then s else record s {
  reconnecting = true;
  reconnect_attempt = s.reconnect_attempt + 1;
  timers = reconnect_delay_ms s.reconnect_attempt ∷ s.timers;
}

unfoldable pub handle_connection_issue : Connection → Connection
handle_connection_issue s =
    if s.shutting_down then s else schedule_reconnect (record s { channel = false })

-- The callback of the timer; `rest` are the other timers.
unfoldable pub timer_fired : List ℕ → Connection → Connection
timer_fired rest s =
    if s.shutting_down
    then record s { reconnecting = false; timers = rest }
    else record s { timers = rest; connecting = s.connecting + 1 }

-- connectAndSetup has made the connection.
abbrev pub channel_opened : Connection → Connection
channel_opened s = record s { channel = true }

-- It has ended, well or not, and its `finally` follows; `left` are the other runs.
unfoldable pub setup_ended : (succeeded : Bool) → ℕ → Connection → Connection
setup_ended succeeded left s =
    let t = record s {
      reconnecting = false;
      reconnect_attempt = if succeeded then 0 else s.reconnect_attempt;
      connecting = left;
    } in
    if not t.channel && not t.shutting_down then schedule_reconnect t else t

-- onModuleDestroy: the timer is cleared, and both ends are closed.
abbrev pub destroyed : Connection → Connection
destroyed s = record s { shutting_down = true; timers = [] }

-- What may happen next. A run that succeeds has opened its channel, which may be lost again since.
pub data Step : Connection → Connection → Type 0 where
  issue : {s : Connection} → Step s (handle_connection_issue s)
  fire :
      {s : Connection} (delay : ℕ) (rest : List ℕ)
      → s.timers ≡ delay ∷ rest
      → Step s (timer_fired rest s)
  open_channel : {s : Connection} (left : ℕ) → s.connecting ≡ left + 1 → Step s (channel_opened s)
  end_setup :
      {s : Connection} (succeeded : Bool) (left : ℕ)
      → s.connecting ≡ left + 1
      → Step s (setup_ended succeeded left s)
  destroy : {s : Connection} → Step s (destroyed s)

pub data Reachable : Connection → Type 0 where
  start : Reachable connected
  next : {s t : Connection} → Reachable s → Step s t → Reachable t
