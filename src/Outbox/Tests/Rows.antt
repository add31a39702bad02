-- ===== src/Outbox/Tests/Rows.antt =====
-- A table of outbox rows, the oldest first, which has the laws of the repository.
use mathlib.Core.Path.{subst}
use bumpa_achievement_system.Common.{
  ◌≡◌, refl, ap, ◌∙◌, sym, String, Bool, Option, none, some, List, [], ◌∷◌, ◌++◌, true, map,
  if◌then◌else◌, ◌==◌, Bool-cases, inl, inr, All-map, NoRepeat, eq_iff, filter, take,
}
use bumpa_achievement_system.Common.Ordered.{
  mapped, take-le, take-All, filter-All, take-NoRepeat, rows_that-NoRepeat, row, written, changed,
  row-id, row-Memᴰ, rows-found, row-written, row-changed, written-new, written-old,
  written-NoRepeat, changed-ids,
}
use bumpa_achievement_system.Events.{
  OutboxEvent, OutboxStatus, pending, publishing, published, failed,
}
use bumpa_achievement_system.Outbox.{OutboxRepository, stored, claimed, can_claim, is_pending}

abbrev key : OutboxEvent → String
key r = r.id

pub record Table : Type 0 where
  pub events : List OutboxEvent
  pub once : NoRepeat (map key events)

abbrev pub find_row : String → Table → Option OutboxEvent
find_row i t = row key i t.events

abbrev claimed_row : OutboxEvent → OutboxEvent
claimed_row r = if is_pending r.status then record r { status = publishing } else r

pub claimed_row-id : (r : OutboxEvent) → (claimed_row r).id ≡ r.id
claimed_row-id r = elim (Bool-cases (is_pending r.status)) [ inl y ↦ simp y | inr n ↦ simp n ]

claimed-mapped : (o : Option OutboxEvent) → mapped claimed_row o ≡ claimed o
claimed-mapped none = refl
claimed-mapped (some r) = elim (Bool-cases (is_pending r.status)) [
  | inl y ↦ simp y
  | inr n ↦ simp n
]

pub stored-id : (o : Option OutboxEvent) (r : OutboxEvent) → (stored o r).id ≡ r.id
stored-id none r = refl
stored-id (some old) r = refl

pub is_pending→eq : (s : OutboxStatus) → is_pending s ≡ true → s ≡ pending
is_pending→eq pending h = refl
is_pending→eq publishing h = cc
is_pending→eq published h = cc
is_pending→eq failed h = cc

abbrev waiting : OutboxEvent → Bool
waiting r = is_pending r.status

abbrev save_row : OutboxEvent → Table → Table
save_row r t = record {
  events = written key (stored (find_row r.id t) r) t.events;
  once = written-NoRepeat key (stored (find_row r.id t) r) t.events t.once;
}

abbrev claim_row : String → Table → Table
claim_row i t = record {
  events = changed key i claimed_row t.events;
  once = subst NoRepeat (sym (changed-ids key i claimed_row t.events claimed_row-id)) t.once;
}

pub find-save_row :
    (j : String) (r : OutboxEvent) (t : Table)
    → find_row j (save_row r t)
      ≡ (if r.id == j then some (stored (find_row j t) r) else find_row j t)
find-save_row j r t =
    row-written key j (stored (find_row r.id t) r) t.events
    ∙ ap (λ i. if i == j then some (stored (find_row r.id t) r) else find_row j t)
        (stored-id (find_row r.id t) r)
    ∙ elim (Bool-cases (r.id == j)) [
      | inl own ↦ simp own (ap (λ i. some (stored (find_row i t) r)) ((eq_iff r.id j).0 own))
      | inr other ↦ simp other
    ]

pub find-claim_row :
    (j i : String) (t : Table)
    → find_row j (claim_row i t) ≡ (if i == j then claimed (find_row j t) else find_row j t)
find-claim_row j i t =
    row-changed key j i claimed_row t.events claimed_row-id
    ∙ ap (λ o. if i == j then o else find_row j t) (claimed-mapped (find_row j t))

pub in_order-save_row :
    (r : OutboxEvent) (t : Table)
    → find_row r.id t ≡ none
    → map key (save_row r t).events ≡ map key t.events ++ r.id ∷ []
in_order-save_row r t h =
    ap (λ o. map key (written key (stored o r) t.events)) h ∙ written-new key r t.events h

pub in_order-save_old_row :
    (r old : OutboxEvent) (t : Table)
    → find_row r.id t ≡ some old
    → map key (save_row r t).events ≡ map key t.events
in_order-save_old_row r old t h =
    ap (λ o. map key (written key (stored o r) t.events)) h
    ∙ written-old key (stored (some old) r) old t.events h

abbrev pub repository : OutboxRepository
repository = record {
  Rows = Table;
  find_one = find_row;
  in_order = λ t. t.events;
  find_pending = λ n t. take n (filter waiting t.events);
  save = save_row;
  claim = claim_row;
  affected = λ i t. can_claim (find_row i t);
  find-save = find-save_row;
  find-claim = find-claim_row;
  affected_iff = λ i t. refl;
  find_one-id = λ i t r h. row-id key i t.events r h;
  in_order-found = λ t. rows-found key t.events t.once;
  in_order-complete = λ i t r h. row-Memᴰ key i t.events r h;
  in_order-once = λ t. t.once;
  in_order-save = in_order-save_row;
  in_order-save_old = in_order-save_old_row;
  in_order-claim = λ i t. changed-ids key i claimed_row t.events claimed_row-id;
  find_pending-oldest = λ n t. refl;
  find_pending-found = λ n t. take-All _ n (filter waiting t.events) (
      All-map _ _ (filter waiting t.events) (λ r h. (h.0, is_pending→eq r.status h.1))
        (filter-All _ waiting t.events (rows-found key t.events t.once)));
  find_pending-le = λ n t. take-le n (filter waiting t.events);
  find_pending-once = λ n t.
      take-NoRepeat key n (filter waiting t.events)
        (rows_that-NoRepeat key waiting t.events t.once);
}

abbrev pub empty : Table
empty = record { events = []; once = tt }
