-- ===== src/Outbox/Scheduled/Alone.antt =====
-- The lock and the process that has it: what each change of one process keeps.
use mathlib.Core.Path.{subst}
use bumpa_achievement_system.Common.{
  sym, ◌∙◌, ap, if◌then◌else◌, ℕ, ◌≡◌, ◌<◌, true, false, Option, none, some, arith, nat_eq,
  Bool-cases, inl, inr,
}
use bumpa_achievement_system.Outbox.Scheduled.{
  LockKey, LockValue, Redis, is_live, read, Run, idle, acquiring, publishing, releasing, Publisher,
  System, put,
}

-- The value of the lock under which a process publishes, or has yet to release.
abbrev pub batch_value : Run → Option LockValue
batch_value idle = none
batch_value (acquiring v) = none
batch_value (publishing v) = some v
batch_value (releasing v) = some v

module _ (redis : Redis) (lock_key : LockKey) (lock_ttl_ms : ℕ) where
  open redis use {Store, entry, entry-set_nx, entry-del, entry-pexpire}

  pub record IsExclusive (s : System redis lock_key lock_ttl_ms) : Type 0 where
    pub owned :
        (i : ℕ) (v : LockValue)
        → batch_value (s.publisher i).run ≡ some v
        → read s.now (entry lock_key s.store) ≡ some v
    pub alone :
        (i j : ℕ) (v w : LockValue)
        → batch_value (s.publisher i).run ≡ some v
        → batch_value (s.publisher j).run ≡ some w
        → i ≡ j

  module _ (i : ℕ) (p : Publisher) (s : System redis lock_key lock_ttl_ms)
      (h : (v : LockValue)
        → batch_value p.run ≡ some v
        → batch_value (s.publisher i).run ≡ some v) where
    in_batch-put :
        (j : ℕ) (v : LockValue)
        → batch_value ((put redis lock_key lock_ttl_ms i p s).publisher j).run ≡ some v
        → batch_value (s.publisher j).run ≡ some v
    in_batch-put j v b = elim (Bool-cases (nat_eq i j)) [
      | inl e ↦
          let same : i ≡ j = ground arith in
          subst (λ k. batch_value (s.publisher k).run ≡ some v) same (h v (cc (simp e at b)))
      | inr n ↦ cc (simp n at b)
    ]

    -- The process publishes no more than before, and the lock of those that do is left.
    pub put-IsExclusive :
        (store : Store)
        → ((j : ℕ) (v : LockValue)
            → batch_value ((put redis lock_key lock_ttl_ms i p s).publisher j).run ≡ some v
            → read s.now (entry lock_key s.store) ≡ some v
            → read s.now (entry lock_key store) ≡ some v)
        → IsExclusive s
        → IsExclusive (put redis lock_key lock_ttl_ms i p (record s { store = store }))
    put-IsExclusive store left x = record {
      owned = λ j v b. left j v b (x.owned j v (in_batch-put j v b));
      alone = λ j k v w b c. x.alone j k v w (in_batch-put j v b) (in_batch-put k w c);
    }

  pub acquired_free :
      (i : ℕ) (v : LockValue) (s : System redis lock_key lock_ttl_ms)
      → is_live s.now (entry lock_key s.store) ≡ false
      → 0 < lock_ttl_ms
      → IsExclusive s
      → IsExclusive (
          put redis lock_key lock_ttl_ms i
            (record (s.publisher i) { running = true; run = publishing v })
            (record s { store = redis.set_nx lock_key v lock_ttl_ms s.now s.store }))
  acquired_free i v s free positive x = record {
    owned = λ j w b. elim (Bool-cases (nat_eq i j)) [
      | inl e ↦
          let same : some v ≡ some w = cc (simp e at b) in
          ground (arith, entry-set_nx lock_key v lock_ttl_ms s.now s.store, same)
      | inr n ↦ absurd (ground (arith, x.owned j w (cc (simp n at b))))
    ];
    alone = λ j k w u b c. sym (only j w b) ∙ only k u c;
  }
    where
      only :
          (j : ℕ) (w : LockValue)
          → batch_value
              (if nat_eq i j
                then record (s.publisher i) { running = true; run = publishing v }
                else s.publisher j).run
            ≡ some w
          → i ≡ j
      only j w b = elim (Bool-cases (nat_eq i j)) [
        | inl e ↦ ground arith
        | inr n ↦ absurd (ground (arith, x.owned j w (cc (simp n at b))))
      ]

  pub releasing-alone :
      (i : ℕ) (p : Publisher) (v : LockValue) (s : System redis lock_key lock_ttl_ms)
      → (s.publisher i).run ≡ releasing v
      → p.run ≡ idle
      → IsExclusive s
      → (j : ℕ) (w : LockValue)
      → batch_value ((put redis lock_key lock_ttl_ms i p s).publisher j).run ≡ some w
      → ⊥
  releasing-alone i p v s e f x j w b = elim (Bool-cases (nat_eq i j)) [
    | inl same ↦ cc (simp same at b)
    | inr other ↦
        let there : batch_value (s.publisher j).run ≡ some w = cc (simp other at b) in
        let one : i ≡ j = x.alone i j v w (ap batch_value e) there in ground (arith, one)
  ]
