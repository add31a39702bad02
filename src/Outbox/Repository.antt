-- ===== src/Outbox/Repository.antt =====
-- The repository of outbox rows that packages/outbox-sdk/src/outbox.service.ts is given: TypeORM over
-- PostgreSQL, which is not in the repository. What the code relies on is stated as laws.
use mathlib.Core.List.{Memᴰ}
use bumpa_achievement_system.Common.{
  ℕ, ◌≡◌, String, Bool, true, false, Option, none, some, List, if◌then◌else◌, ◌==◌, All, length,
  ◌≤◌, NoRepeat, map, filter, take, [], ◌∷◌, ◌++◌,
}
use bumpa_achievement_system.Events.{
  OutboxEvent, OutboxStatus, pending, publishing, published, failed,
}

-- `save` writes the columns of an entity; one that is undefined keeps what the row has.
abbrev pub keep_undefined {ℓ} : {A : Type ℓ} → Option A → Option A → Option A
keep_undefined none old = old
keep_undefined (some a) old = some a

abbrev pub stored : Option OutboxEvent → OutboxEvent → OutboxEvent
stored none r = r
stored (some old) r = record r {
  last_error = keep_undefined r.last_error old.last_error;
  published_at = keep_undefined r.published_at old.published_at;
}

abbrev pub is_pending : OutboxStatus → Bool
is_pending pending = true
is_pending publishing = false
is_pending published = false
is_pending failed = false

-- UPDATE … SET status = 'PUBLISHING' WHERE id = … AND status = 'PENDING', on the row of the id.
abbrev pub claimed : Option OutboxEvent → Option OutboxEvent
claimed none = none
claimed (some r) = if is_pending r.status then some (record r { status = publishing }) else some r

abbrev pub can_claim : Option OutboxEvent → Bool
can_claim none = false
can_claim (some r) = is_pending r.status

pub record OutboxRepository : Type 1 where
  pub Rows : Type 0
  pub find_one : String → Rows → Option OutboxEvent  -- findOne({ where: { id } })
  pub in_order : Rows → List OutboxEvent  -- all rows by createdAt, the oldest first
  pub find_pending : ℕ → Rows → List OutboxEvent  -- find({ where: PENDING, order, take })
  pub save : OutboxEvent → Rows → Rows  -- inserts or updates by the primary key
  pub claim : String → Rows → Rows  -- update({ id, status: PENDING }, { status: PUBLISHING })
  pub affected : String → Rows → Bool  -- whether that update has found a row
  pub find-save :
      (j : String) (r : OutboxEvent) (t : Rows)
      → find_one j (save r t) ≡ (if r.id == j then some (stored (find_one j t) r) else find_one j t)
  pub find-claim :
      (j i : String) (t : Rows)
      → find_one j (claim i t) ≡ (if i == j then claimed (find_one j t) else find_one j t)
  pub affected_iff : (i : String) (t : Rows) → affected i t ≡ can_claim (find_one i t)
  pub find_one-id : (i : String) (t : Rows) (r : OutboxEvent) → find_one i t ≡ some r → r.id ≡ i
  pub in_order-found : (t : Rows) → All (λ (r : OutboxEvent). find_one r.id t ≡ some r) (in_order t)
  pub in_order-complete :
      (i : String) (t : Rows) (r : OutboxEvent) → find_one i t ≡ some r → Memᴰ r (in_order t)
  pub in_order-once : (t : Rows) → NoRepeat (map (λ (r : OutboxEvent). r.id) (in_order t))
  -- A new row is the youngest; the others keep their places.
  pub in_order-save :
      (r : OutboxEvent) (t : Rows)
      → find_one r.id t ≡ none
      → map (λ (q : OutboxEvent). q.id) (in_order (save r t))
        ≡ map (λ (q : OutboxEvent). q.id) (in_order t) ++ r.id ∷ []
  pub in_order-save_old :
      (r old : OutboxEvent) (t : Rows)
      → find_one r.id t ≡ some old
      → map (λ (q : OutboxEvent). q.id) (in_order (save r t))
        ≡ map (λ (q : OutboxEvent). q.id) (in_order t)
  pub in_order-claim :
      (i : String) (t : Rows)
      → map (λ (q : OutboxEvent). q.id) (in_order (claim i t))
        ≡ map (λ (q : OutboxEvent). q.id) (in_order t)
  -- WHERE, ORDER BY and LIMIT.
  pub find_pending-oldest :
      (n : ℕ) (t : Rows)
      → find_pending n t ≡ take n (filter (λ (r : OutboxEvent). is_pending r.status) (in_order t))
  pub find_pending-found :
      (n : ℕ) (t : Rows)
      → All
          (λ (r : OutboxEvent). (find_one r.id t ≡ some r) × (r.status ≡ pending))
          (find_pending n t)
  pub find_pending-le : (n : ℕ) (t : Rows) → length (find_pending n t) ≤ n
  pub find_pending-once :
      (n : ℕ) (t : Rows) → NoRepeat (map (λ (r : OutboxEvent). r.id) (find_pending n t))
