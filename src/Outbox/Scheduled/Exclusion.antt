-- ===== src/Outbox/Scheduled/Exclusion.antt =====
-- One process publishes at a time, as long as the heartbeats keep the lock from expiring.
use bumpa_achievement_system.Common.{
  refl, ap, ℕ, ◌+◌, ◌≡◌, ◌<◌, true, some, List, [], ◌∷◌, arith, Bool-cases, inl, inr,
}
use bumpa_achievement_system.Outbox.Scheduled.{
  LockKey, LockValue, Redis, is_live, read, Run, idle, acquiring, publishing, releasing, Ending,
  answered, failed, lost, Event, ticked, acquire_ended, heartbeat, batch_ended, release_ended,
  restarted, waited, System, step, run, acquired, beaten, finished, released, publish_pending,
  acquire_lock, extend_lock, release_lock, holds,
}
use bumpa_achievement_system.Outbox.Scheduled.Alone.{
  batch_value, IsExclusive, put-IsExclusive, acquired_free, releasing-alone,
}

module _ (redis : Redis) (lock_key : LockKey) (lock_ttl_ms : ℕ) where
  open redis use {Store, entry, entry-set_nx, entry-del, entry-pexpire}

  -- Time does not run past the expiry of a lock that is in use.
  abbrev pub InTime : Event → System redis lock_key lock_ttl_ms → Type 0
  InTime (waited ms) s =
      (i : ℕ) (v : LockValue)
      → batch_value (s.publisher i).run ≡ some v
      → is_live (s.now + ms) (entry lock_key s.store) ≡ true
  InTime _ s = Unit

  abbrev pub Timely : List Event → System redis lock_key lock_ttl_ms → Type 0
  Timely [] s = Unit
  Timely (e ∷ es) s = InTime e s × Timely es (step redis lock_key lock_ttl_ms e s)

  ticked-IsExclusive :
      (i : ℕ) (s : System redis lock_key lock_ttl_ms)
      → IsExclusive redis lock_key lock_ttl_ms s
      → IsExclusive redis lock_key lock_ttl_ms (step redis lock_key lock_ttl_ms (ticked i) s)
  unfolding step publish_pending
  ticked-IsExclusive i s x =
      put-IsExclusive redis lock_key lock_ttl_ms i _ s (λ v b. ground arith) s.store (λ j v b r. r)
        x

  acquired-IsExclusive :
      (i : ℕ) (ending : Ending) (r : Run) (s : System redis lock_key lock_ttl_ms)
      → (s.publisher i).run ≡ r
      → 0 < lock_ttl_ms
      → IsExclusive redis lock_key lock_ttl_ms s
      → IsExclusive redis lock_key lock_ttl_ms (acquired redis lock_key lock_ttl_ms i ending r s)
  unfolding acquired acquire_lock
  acquired-IsExclusive i answered (acquiring v) s e positive x =
      elim (Bool-cases (is_live s.now (entry lock_key s.store))) [
        | inl live ↦ rw live (
            put-IsExclusive redis lock_key lock_ttl_ms i _ s (λ v b. cc) _
              (λ j w b r. ground (arith, entry-set_nx lock_key v lock_ttl_ms s.now s.store)) x)
        | inr free ↦ rw free (acquired_free redis lock_key lock_ttl_ms i v s free positive x)
      ]
  acquired-IsExclusive i failed (acquiring v) s e positive x =
      put-IsExclusive redis lock_key lock_ttl_ms i _ s (λ v b. cc) s.store (λ j v b r. r) x
  acquired-IsExclusive i lost (acquiring v) s e positive x =
      put-IsExclusive redis lock_key lock_ttl_ms i _ s (λ v b. cc) _
        (λ j w b r. ground (arith, entry-set_nx lock_key v lock_ttl_ms s.now s.store)) x
  acquired-IsExclusive i ending idle s e positive x = x
  acquired-IsExclusive i ending (publishing v) s e positive x = x
  acquired-IsExclusive i ending (releasing v) s e positive x = x

  beaten-IsExclusive :
      (r : Run) (s : System redis lock_key lock_ttl_ms)
      → 0 < lock_ttl_ms
      → IsExclusive redis lock_key lock_ttl_ms s
      → IsExclusive redis lock_key lock_ttl_ms (beaten redis lock_key lock_ttl_ms r s)
  unfolding beaten extend_lock holds
  beaten-IsExclusive (publishing v) s positive x = record {
    owned =
        λ j w b. ground (arith, x.owned j w b, entry-pexpire lock_key lock_ttl_ms s.now s.store);
    alone = x.alone;
  }
  beaten-IsExclusive idle s positive x = x
  beaten-IsExclusive (acquiring v) s positive x = x
  beaten-IsExclusive (releasing v) s positive x = x

  finished-IsExclusive :
      (i : ℕ) (r : Run) (s : System redis lock_key lock_ttl_ms)
      → (s.publisher i).run ≡ r
      → IsExclusive redis lock_key lock_ttl_ms s
      → IsExclusive redis lock_key lock_ttl_ms (finished redis lock_key lock_ttl_ms i r s)
  unfolding finished
  finished-IsExclusive i (publishing v) s e x =
      put-IsExclusive redis lock_key lock_ttl_ms i _ s (λ w b. cc (ap batch_value e)) s.store
        (λ j v b r. r) x
  finished-IsExclusive i idle s e x = x
  finished-IsExclusive i (acquiring v) s e x = x
  finished-IsExclusive i (releasing v) s e x = x

  released-IsExclusive :
      (i : ℕ) (ending : Ending) (r : Run) (s : System redis lock_key lock_ttl_ms)
      → (s.publisher i).run ≡ r
      → IsExclusive redis lock_key lock_ttl_ms s
      → IsExclusive redis lock_key lock_ttl_ms (released redis lock_key lock_ttl_ms i ending r s)
  unfolding released release_lock holds
  released-IsExclusive i answered (releasing v) s e x =
      put-IsExclusive redis lock_key lock_ttl_ms i _ s (λ v b. cc) _
        (λ j w b r. absurd (releasing-alone redis lock_key lock_ttl_ms i _ v s e refl x j w b)) x
  released-IsExclusive i failed (releasing v) s e x =
      put-IsExclusive redis lock_key lock_ttl_ms i _ s (λ v b. cc) s.store (λ j v b r. r) x
  released-IsExclusive i lost (releasing v) s e x =
      put-IsExclusive redis lock_key lock_ttl_ms i _ s (λ v b. cc) _
        (λ j w b r. absurd (releasing-alone redis lock_key lock_ttl_ms i _ v s e refl x j w b)) x
  released-IsExclusive i ending idle s e x = x
  released-IsExclusive i ending (acquiring v) s e x = x
  released-IsExclusive i ending (publishing v) s e x = x

  step-IsExclusive :
      (e : Event) (s : System redis lock_key lock_ttl_ms)
      → 0 < lock_ttl_ms
      → InTime e s
      → IsExclusive redis lock_key lock_ttl_ms s
      → IsExclusive redis lock_key lock_ttl_ms (step redis lock_key lock_ttl_ms e s)
  unfolding step
  step-IsExclusive (ticked i) s positive h x = ticked-IsExclusive i s x
  step-IsExclusive (acquire_ended i ending) s positive h x =
      acquired-IsExclusive i ending (s.publisher i).run s refl positive x
  step-IsExclusive (heartbeat i) s positive h x =
      beaten-IsExclusive (s.publisher i).run s positive x
  step-IsExclusive (batch_ended i) s positive h x =
      finished-IsExclusive i (s.publisher i).run s refl x
  step-IsExclusive (release_ended i ending) s positive h x =
      released-IsExclusive i ending (s.publisher i).run s refl x
  step-IsExclusive (restarted i pid) s positive h x =
      put-IsExclusive redis lock_key lock_ttl_ms i _ s (λ v b. cc) s.store (λ j v b r. r) x
  step-IsExclusive (waited ms) s positive h x = record {
    owned = λ j v b. ground (arith, h j v b, x.owned j v b);
    alone = x.alone;
  }

  run-IsExclusive :
      (es : List Event) (s : System redis lock_key lock_ttl_ms)
      → 0 < lock_ttl_ms
      → Timely es s
      → IsExclusive redis lock_key lock_ttl_ms s
      → IsExclusive redis lock_key lock_ttl_ms (run redis lock_key lock_ttl_ms es s)
  unfolding run
  run-IsExclusive [] s positive h x = x
  run-IsExclusive (e ∷ es) s positive h x =
      run-IsExclusive es (step redis lock_key lock_ttl_ms e s) positive h.1
        (step-IsExclusive e s positive h.0 x)

  -- In every schedule, with processes that fail and restart, in which time does not run past the
  -- expiry of a lock that is in use, at most one process is publishing or has yet to release, and
  -- Redis holds the lock under its value; the time to live is positive and no process has begun.
  pub run_exclusive :
      (es : List Event) (s : System redis lock_key lock_ttl_ms) (i j : ℕ) (v w : LockValue)
      → 0 < lock_ttl_ms
      → ((k : ℕ) → (s.publisher k).run ≡ idle)
      → Timely es s
      → batch_value ((run redis lock_key lock_ttl_ms es s).publisher i).run ≡ some v
      → batch_value ((run redis lock_key lock_ttl_ms es s).publisher j).run ≡ some w
      → (i ≡ j)
        × (let t = run redis lock_key lock_ttl_ms es s in
            read t.now (entry lock_key t.store) ≡ some v)
  run_exclusive es s i j v w positive fresh h b c =
      let x = run-IsExclusive es s positive h (record {
        owned = λ k u e. absurd (cc (ap batch_value (fresh k), e));
        alone = λ k l u z e f. absurd (cc (ap batch_value (fresh k), e));
      }) in
      (x.alone i j v w b c, x.owned i v b)
