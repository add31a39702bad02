-- ===== src/Outbox/Scheduled.antt =====
-- packages/outbox-sdk/src/scheduled-outbox.publisher.ts: the publisher that each process runs on a
-- timer, and the lock in Redis that the processes share. A schedule is a list of events: what the
-- timers do, how the awaited calls end, and the time that passes.
mod LockStore
pub use LockStore.*
pub mod Alone
pub mod Exclusion
pub mod TakeOver
pub mod SameValue
pub mod Tests
use bumpa_achievement_system.Common.{
  ℕ, ◌+◌, ◌/◌, Bool, true, false, not, ◌&&◌, Option, none, some, List, [], ◌∷◌, if◌then◌else◌,
  nat_eq, max,
}

-- What publishPending is waiting for. Its heartbeat runs while it publishes.
pub data Run : Type 0 where
  idle : Run
  acquiring : LockValue → Run
  publishing : LockValue → Run
  releasing : LockValue → Run

pub record Publisher : Type 0 where
  pub pid : ℕ
  pub running : Bool
  pub run : Run

-- A process that has just started.
abbrev pub started : ℕ → Publisher
started pid = record { pid = pid; running = false; run = idle }

-- Math.max(1, Math.floor(lockTtlMs / 2)), the interval of the heartbeat.
abbrev pub heartbeat_interval_ms : ℕ → ℕ
heartbeat_interval_ms lock_ttl_ms = max 1 (lock_ttl_ms / 2)

-- publishPending, up to the answer of Redis.
unfoldable pub publish_pending : ℕ → Publisher → Publisher
publish_pending now p =
    if p.running
    then p
    else record p { running = true; run = acquiring (record { pid = p.pid; time = now }) }

-- How an awaited call of Redis ends: with its answer, with an error before Redis has run it, or with
-- an error after that.
pub data Ending : Type 0 where
  answered failed lost : Ending

pub data Event : Type 0 where
  ticked : ℕ → Event
  acquire_ended : ℕ → Ending → Event
  heartbeat : ℕ → Event
  batch_ended : ℕ → Event
  release_ended : ℕ → Ending → Event
  restarted : ℕ → ℕ → Event
  waited : ℕ → Event

module _ (redis : Redis) (lock_key : LockKey) (lock_ttl_ms : ℕ) where
  open redis use {Store, entry, set_nx, del, pexpire}

  pub record System : Type 0 where
    pub now : ℕ
    pub store : Store
    pub publisher : ℕ → Publisher

  -- redis.call("GET", KEYS[1]) == ARGV[1]
  pub holds : LockValue → ℕ → Store → Bool
  holds value now store = is_value value (read now (entry lock_key store))

  -- acquireLock: the answer is OK when the key was not there.
  pub acquire_lock : LockValue → ℕ → Store → Store × Bool
  acquire_lock value now store =
      (set_nx lock_key value lock_ttl_ms now store, not (is_live now (entry lock_key store)))

  pub extend_lock : LockValue → ℕ → Store → Store
  unfolding holds
  extend_lock value now store =
      if holds value now store then pexpire lock_key lock_ttl_ms now store else store

  pub release_lock : LockValue → ℕ → Store → Store
  unfolding holds
  release_lock value now store = if holds value now store then del lock_key store else store

  abbrev pub put : ℕ → Publisher → System → System
  put i p s = record s { publisher = λ j. if nat_eq i j then p else s.publisher j }

  -- publishPending after `await this.acquireLock`. When that throws, nothing handles the rejection, and
  -- the process ends: its publisher stays `running` and waits for nothing, so that no event moves it
  -- until the process is `restarted`.
  unfoldable pub acquired : ℕ → Ending → Run → System → System
  unfolding acquire_lock
  acquired i answered (acquiring value) s =
      let (store, has_lock) = acquire_lock value s.now s.store in
      put i
        (record (s.publisher i) {
          running = has_lock;
          run = if has_lock then publishing value else idle;
        })
        (record s { store = store })
  acquired i lost (acquiring value) s =
      put i (record (s.publisher i) { run = idle })
        (record s { store = (acquire_lock value s.now s.store).0 })
  acquired i failed (acquiring value) s = put i (record (s.publisher i) { run = idle }) s
  acquired i ending idle s = s
  acquired i ending (publishing value) s = s
  acquired i ending (releasing value) s = s

  unfoldable pub beaten : Run → System → System
  unfolding extend_lock
  beaten (publishing value) s = record s { store = extend_lock value s.now s.store }
  beaten idle s = s
  beaten (acquiring value) s = s
  beaten (releasing value) s = s

  -- publishPendingBatch returns or throws; the `finally` stops the heartbeat. A rejection ends the
  -- process once the lock is released; the schedules in which it goes on are admitted too.
  unfoldable pub finished : ℕ → Run → System → System
  finished i (publishing value) s = put i (record (s.publisher i) { run = releasing value }) s
  finished i idle s = s
  finished i (acquiring value) s = s
  finished i (releasing value) s = s

  -- The end of the `finally`. When releaseLock throws, the process ends as above.
  unfoldable pub released : ℕ → Ending → Run → System → System
  unfolding release_lock
  released i answered (releasing value) s =
      put i (record (s.publisher i) { running = false; run = idle })
        (record s { store = release_lock value s.now s.store })
  released i lost (releasing value) s =
      put i (record (s.publisher i) { run = idle })
        (record s { store = release_lock value s.now s.store })
  released i failed (releasing value) s = put i (record (s.publisher i) { run = idle }) s
  released i ending idle s = s
  released i ending (acquiring value) s = s
  released i ending (publishing value) s = s

  unfoldable pub step : Event → System → System
  unfolding publish_pending acquired beaten finished released
  step (ticked i) s = put i (publish_pending s.now (s.publisher i)) s
  step (acquire_ended i ending) s = acquired i ending (s.publisher i).run s
  step (heartbeat i) s = beaten (s.publisher i).run s
  step (batch_ended i) s = finished i (s.publisher i).run s
  step (release_ended i ending) s = released i ending (s.publisher i).run s
  step (restarted i pid) s = put i (started pid) s
  step (waited ms) s = record s { now = s.now + ms }

  unfoldable pub run : List Event → System → System
  unfolding step
  run [] s = s
  run (e ∷ es) s = run es (step e s)
