-- ===== src/Outbox/Scheduled/SameValue.antt =====
-- Processes whose lock values are the same: in containers the process identifiers are often equal.
use bumpa_achievement_system.Common.{
  ◌∙◌, sym, ℕ, ◌+◌, ◌≡◌, ◌≢◌, ◌<◌, refl, ap, true, false, Option, none, some, List, [], ◌∷◌, arith,
  nat_eq, Bool-cases, inl, inr,
}
use bumpa_achievement_system.Outbox.Scheduled.TakeOver.{nat_eq_self}
use bumpa_achievement_system.Outbox.Scheduled.{
  LockKey, LockValue, Redis, Entry, is_live, is_value, read, idle, acquiring, publishing, releasing,
  Publisher, answered, Event, ticked, acquire_ended, batch_ended, release_ended, waited, System,
  step, run, acquired, finished, released, publish_pending, started, acquire_lock, release_lock,
  holds,
}

apart : (i j : ℕ) → i ≢ j → nat_eq i j ≡ false
apart i j h = elim (Bool-cases (nat_eq i j)) [ inl same ↦ absurd (h (ground arith)) | inr n ↦ n ]

module _ (redis : Redis) (lock_key : LockKey) (lock_ttl_ms : ℕ) where
  open redis use {Store, entry, entry-set_nx, entry-del, entry-pexpire}

  abbrev S : Type 0
  S = System redis lock_key lock_ttl_ms

  abbrev pub run_from : List Event → S → S
  run_from = run redis lock_key lock_ttl_ms

  abbrev step_from : Event → S → S
  step_from = step redis lock_key lock_ttl_ms

  module _ (i j : ℕ) (other : i ≢ j) where
    record At (now : ℕ) (lock : Option Entry) (p q : Publisher) (s : S) : Type 0 where
      pub clock : s.now ≡ now
      pub key : entry lock_key s.store ≡ lock
      pub one : s.publisher i ≡ p
      pub two : s.publisher j ≡ q

    module _ {now : ℕ} {lock : Option Entry} {p q : Publisher} (s : S) (a : At now lock p q s) where
      ij : nat_eq i j ≡ false
      ij = apart i j other

      ji : nat_eq j i ≡ false
      ji = apart j i (λ e. other (sym e))

      At-ticked_one : At now lock (publish_pending now p) q (step_from (ticked i) s)
      unfolding step
      At-ticked_one = record {
        clock = a.clock;
        key = a.key;
        one = simp (nat_eq_self i, a.one, a.clock);
        two = simp (ij, a.two);
      }

      At-ticked_two : At now lock p (publish_pending now q) (step_from (ticked j) s)
      unfolding step
      At-ticked_two = record {
        clock = a.clock;
        key = a.key;
        one = simp (ji, a.one);
        two = simp (nat_eq_self j, a.two, a.clock);
      }

      At-waited : (ms : ℕ) → At (now + ms) lock p q (step_from (waited ms) s)
      unfolding step
      At-waited ms = record {
        clock = ap (λ (n : ℕ). n + ms) a.clock;
        key = a.key;
        one = a.one;
        two = a.two;
      }

      module _ (v : LockValue) (free : is_live now lock ≡ false) where
        At-acquired_one :
            p.run ≡ acquiring v
            → At now
                (some (record { value = v; expires_at = now + lock_ttl_ms }))
                (record p { running = true; run = publishing v })
                q
                (step_from (acquire_ended i answered) s)
        unfolding step acquired acquire_lock
        At-acquired_one h =
            let r : (s.publisher i).run ≡ acquiring v = ap (λ (x : Publisher). x.run) a.one ∙ h in
            record {
              clock = simp (r, a.clock);
              key = simp (r, entry-set_nx, a.clock, a.key, free);
              one = simp r (simp (nat_eq_self i, a.one, a.clock, a.key, free));
              two = simp (r, ij, a.two);
            }

        At-acquired_two :
            q.run ≡ acquiring v
            → At now
                (some (record { value = v; expires_at = now + lock_ttl_ms }))
                p
                (record q { running = true; run = publishing v })
                (step_from (acquire_ended j answered) s)
        unfolding step acquired acquire_lock
        At-acquired_two h =
            let r : (s.publisher j).run ≡ acquiring v = ap (λ (x : Publisher). x.run) a.two ∙ h in
            record {
              clock = simp (r, a.clock);
              key = simp (r, entry-set_nx, a.clock, a.key, free);
              one = simp (r, ji, a.one);
              two = simp r (simp (nat_eq_self j, a.two, a.clock, a.key, free));
            }

      At-finished :
          (v : LockValue)
          → p.run ≡ publishing v
          → At now lock (record p { run = releasing v }) q (step_from (batch_ended i) s)
      unfolding step finished
      At-finished v h =
          let r : (s.publisher i).run ≡ publishing v = ap (λ (x : Publisher). x.run) a.one ∙ h in
          record {
            clock = simp (r, a.clock);
            key = simp (r, a.key);
            one = simp r (simp (nat_eq_self i, a.one));
            two = simp (r, ij, a.two);
          }

      At-released :
          (v : LockValue)
          → p.run ≡ releasing v
          → is_value v (read now lock) ≡ true
          → At now none
              (record p { running = false; run = idle })
              q
              (step_from (release_ended i answered) s)
      unfolding step released release_lock holds
      At-released v h mine =
          let r : (s.publisher i).run ≡ releasing v = ap (λ (x : Publisher). x.run) a.one ∙ h in
          record {
            clock = simp (r, a.clock);
            key = simp (r, a.clock, a.key, mine, entry-del);
            one = simp r (simp (nat_eq_self i, a.one));
            two = simp (r, ij, a.two);
          }

  -- Two processes with the same identifier that tick in the same millisecond, the second of which
  -- reaches Redis when the lock of the first has expired.
  abbrev pub late_twin : ℕ → ℕ → List Event
  late_twin i j =
      ticked i
      ∷ ticked j
      ∷ acquire_ended i answered
      ∷ waited lock_ttl_ms
      ∷ acquire_ended j answered
      ∷ batch_ended i
      ∷ release_ended i answered
      ∷ []

  -- The first then releases the lock of the second, which is publishing.
  pub late_twin_unlocks :
      (i j pid : ℕ) (s : S)
      → i ≢ j
      → 0 < lock_ttl_ms
      → s.publisher i ≡ started pid
      → s.publisher j ≡ started pid
      → is_live s.now (entry lock_key s.store) ≡ false
      → let t = run_from (late_twin i j) s in
        ((t.publisher j).run ≡ publishing (record { pid = pid; time = s.now }))
        × (entry lock_key t.store ≡ none)
  unfolding run publish_pending
  late_twin_unlocks i j pid s other positive first second free =
      let v : LockValue = record { pid = pid; time = s.now } in
      let s0 : At i j other s.now (entry lock_key s.store) (started pid) (started pid) s = record {
        clock = refl;
        key = refl;
        one = first;
        two = second;
      } in
      let s1 = At-ticked_one i j other s s0 in
      let s2 = At-ticked_two i j other _ s1 in
      let s3 = At-acquired_one i j other _ s2 v free refl in
      let s4 = At-waited i j other _ s3 lock_ttl_ms in
      let s5 = At-acquired_two i j other _ s4 v (ground arith) refl in
      let s6 = At-finished i j other _ s5 v refl in
      let s7 = At-released i j other _ s6 v refl (ground arith) in
      (ap (λ (x : Publisher). x.run) s7.two, s7.key)
