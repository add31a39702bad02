-- ===== src/Outbox/Scheduled/TakeOver.antt =====
-- A process that is gone leaves its lock; the others wait for its time to live, and no longer.
use bumpa_achievement_system.Common.{
  ℕ, ◌+◌, ◌≡◌, ◌≤◌, refl, Bool, true, false, Option, none, some, List, [], ◌∷◌, arith, nat_eq,
  if◌then◌else◌,
}
use bumpa_achievement_system.Outbox.Scheduled.{
  LockKey, LockValue, Redis, Entry, is_live, is_value, extended, read, Run, idle, acquiring,
  publishing, releasing, Ending, answered, failed, lost, Event, ticked, acquire_ended, heartbeat,
  batch_ended, release_ended, restarted, waited, System, step, run, acquired, beaten, finished,
  released, publish_pending, acquire_lock, extend_lock, release_lock, holds,
}

pub nat_eq_self : (n : ℕ) → nat_eq n n ≡ true
nat_eq_self n = ground arith

module _ (redis : Redis) (lock_key : LockKey) (lock_ttl_ms : ℕ) where
  open redis use {Store, entry, entry-set_nx, entry-del, entry-pexpire}

  abbrev S : Type 0
  S = System redis lock_key lock_ttl_ms

  abbrev pub run_from : List Event → S → S
  run_from = run redis lock_key lock_ttl_ms

  abbrev Expires : ℕ → Option Entry → Type 0
  Expires bound none = Unit
  Expires bound (some e) = e.expires_at ≤ bound

  -- No lock outlasts its time to live.
  abbrev pub IsBounded : S → Type 0
  IsBounded s = Expires (s.now + lock_ttl_ms) (entry lock_key s.store)

  either-Expires :
      (b : Bool) (bound : ℕ) (o p : Option Entry)
      → Expires bound o
      → Expires bound p
      → Expires bound (if b then o else p)
  either-Expires true bound o p h k = h
  either-Expires false bound o p h k = k

  either_store-Expires :
      (b : Bool) (bound : ℕ) (s t : Store)
      → Expires bound (entry lock_key s)
      → Expires bound (entry lock_key t)
      → Expires bound (entry lock_key (if b then s else t))
  either_store-Expires true bound s t h k = h
  either_store-Expires false bound s t h k = k

  extended-Expires : (bound : ℕ) (o : Option Entry) → Expires bound (extended bound o)
  extended-Expires bound none = tt
  extended-Expires bound (some e) = omega arith

  later-Expires :
      (bound bound' : ℕ) (o : Option Entry) → bound ≤ bound' → Expires bound o → Expires bound' o
  later-Expires bound bound' none h b = tt
  later-Expires bound bound' (some e) h b = omega arith

  acquire_lock-Expires :
      (v : LockValue) (now : ℕ) (store : Store)
      → Expires (now + lock_ttl_ms) (entry lock_key store)
      → Expires
          (now + lock_ttl_ms)
          (entry lock_key (acquire_lock redis lock_key lock_ttl_ms v now store).0)
  unfolding acquire_lock
  acquire_lock-Expires v now store b = rw (entry-set_nx lock_key v lock_ttl_ms now store) (
      either-Expires (is_live now (entry lock_key store)) _ (entry lock_key store) _ b
        (omega arith))

  release_lock-Expires :
      (v : LockValue) (now : ℕ) (store : Store)
      → Expires (now + lock_ttl_ms) (entry lock_key store)
      → Expires
          (now + lock_ttl_ms)
          (entry lock_key (release_lock redis lock_key lock_ttl_ms v now store))
  unfolding release_lock holds
  release_lock-Expires v now store b =
      either_store-Expires (is_value v (read now (entry lock_key store))) _ _ store
        (rw (entry-del lock_key store) tt) b

  extend_lock-Expires :
      (v : LockValue) (now : ℕ) (store : Store)
      → Expires (now + lock_ttl_ms) (entry lock_key store)
      → Expires
          (now + lock_ttl_ms)
          (entry lock_key (extend_lock redis lock_key lock_ttl_ms v now store))
  unfolding extend_lock holds
  extend_lock-Expires v now store b =
      either_store-Expires (is_value v (read now (entry lock_key store))) _ _ store
        (rw (entry-pexpire lock_key lock_ttl_ms now store) (
          either-Expires (is_live now (entry lock_key store)) _ _ none
            (extended-Expires _ (entry lock_key store)) tt))
        b

  acquired-IsBounded :
      (i : ℕ) (ending : Ending) (r : Run) (s : S)
      → IsBounded s
      → IsBounded (acquired redis lock_key lock_ttl_ms i ending r s)
  unfolding acquired
  acquired-IsBounded i answered (acquiring v) s b = acquire_lock-Expires v s.now s.store b
  acquired-IsBounded i lost (acquiring v) s b = acquire_lock-Expires v s.now s.store b
  acquired-IsBounded i failed (acquiring v) s b = b
  acquired-IsBounded i ending idle s b = b
  acquired-IsBounded i ending (publishing v) s b = b
  acquired-IsBounded i ending (releasing v) s b = b

  beaten-IsBounded :
      (r : Run) (s : S) → IsBounded s → IsBounded (beaten redis lock_key lock_ttl_ms r s)
  unfolding beaten
  beaten-IsBounded (publishing v) s b = extend_lock-Expires v s.now s.store b
  beaten-IsBounded idle s b = b
  beaten-IsBounded (acquiring v) s b = b
  beaten-IsBounded (releasing v) s b = b

  finished-IsBounded :
      (i : ℕ) (r : Run) (s : S)
      → IsBounded s
      → IsBounded (finished redis lock_key lock_ttl_ms i r s)
  unfolding finished
  finished-IsBounded i (publishing v) s b = b
  finished-IsBounded i idle s b = b
  finished-IsBounded i (acquiring v) s b = b
  finished-IsBounded i (releasing v) s b = b

  released-IsBounded :
      (i : ℕ) (ending : Ending) (r : Run) (s : S)
      → IsBounded s
      → IsBounded (released redis lock_key lock_ttl_ms i ending r s)
  unfolding released
  released-IsBounded i answered (releasing v) s b = release_lock-Expires v s.now s.store b
  released-IsBounded i lost (releasing v) s b = release_lock-Expires v s.now s.store b
  released-IsBounded i failed (releasing v) s b = b
  released-IsBounded i ending idle s b = b
  released-IsBounded i ending (acquiring v) s b = b
  released-IsBounded i ending (publishing v) s b = b

  step-IsBounded :
      (e : Event) (s : S) → IsBounded s → IsBounded (step redis lock_key lock_ttl_ms e s)
  unfolding step
  step-IsBounded (ticked i) s b = b
  step-IsBounded (acquire_ended i ending) s b = acquired-IsBounded i ending (s.publisher i).run s b
  step-IsBounded (heartbeat i) s b = beaten-IsBounded (s.publisher i).run s b
  step-IsBounded (batch_ended i) s b = finished-IsBounded i (s.publisher i).run s b
  step-IsBounded (release_ended i ending) s b = released-IsBounded i ending (s.publisher i).run s b
  step-IsBounded (restarted i pid) s b = b
  step-IsBounded (waited ms) s b =
      later-Expires (s.now + lock_ttl_ms) _ (entry lock_key s.store) (omega arith) b

  run-IsBounded : (es : List Event) (s : S) → IsBounded s → IsBounded (run_from es s)
  unfolding run
  run-IsBounded [] s b = b
  run-IsBounded (e ∷ es) s b =
      run-IsBounded es (step redis lock_key lock_ttl_ms e s) (step-IsBounded e s b)

  gone : (now : ℕ) (o : Option Entry) → Expires now o → is_live now o ≡ false
  gone now none b = refl
  gone now (some e) b = ground arith

  takes_over :
      (i : ℕ) (t : S)
      → is_live (t.now + lock_ttl_ms) (entry lock_key t.store) ≡ false
      → (t.publisher i).running ≡ false
      → ((run_from (waited lock_ttl_ms ∷ ticked i ∷ acquire_ended i answered ∷ []) t).publisher
          i).run
        ≡ publishing (record { pid = (t.publisher i).pid; time = t.now + lock_ttl_ms })
  unfolding run step publish_pending acquired acquire_lock
  takes_over i t free f = simp (nat_eq_self i, f, free)

  -- Whatever has happened, a lock delays the others by no more than its time to live: once that has
  -- passed without a heartbeat, a process that is not in a run takes the lock at its next tick, if
  -- Redis answers. The lock that was there at the start, if any, keeps to that bound too.
  pub run_takes_over :
      (es : List Event) (s : S) (i : ℕ)
      → IsBounded s
      → ((run_from es s).publisher i).running ≡ false
      → let t = run_from es s in
        ((run_from (waited lock_ttl_ms ∷ ticked i ∷ acquire_ended i answered ∷ []) t).publisher
          i).run
        ≡ publishing (record { pid = (t.publisher i).pid; time = t.now + lock_ttl_ms })
  run_takes_over es s i b f =
      let t = run_from es s in
      takes_over i t (gone (t.now + lock_ttl_ms) (entry lock_key t.store) (run-IsBounded es s b)) f
