-- ===== src/Outbox/Row.antt =====
-- What one call does to the row of its id, and that it touches no other row.
use text.Mathlib.TextPositions.{eq_refl}
use mathlib.Core.Path.{subst}
use bumpa_achievement_system.Common.{
  ℕ, ◌≡◌, refl, inl, inr, String, true, false, Option, none, some, arith, if◌then◌else◌, ◌==◌, ◌+◌,
  leb, eq_iff, ltb, ◌&&◌, Bool-cases, Option-cases, ◌∙◌, sym,
}
use bumpa_achievement_system.Events.{
  OutboxEvent, OutboxStatus, pending, publishing, published, failed,
}
use bumpa_achievement_system.Outbox.{
  Confirmation, OutboxRepository, keep_undefined, is_pending, OutboxOptions, OutboxState, acked,
  not_acked, unsaved, conclude, publish_record, claim_and_publish, publish_found, publish_by_id,
}

keep_undefined_self {ℓ} : {A : Type ℓ} (o : Option A) → keep_undefined o o ≡ o
keep_undefined_self none = refl
keep_undefined_self (some a) = refl

-- The status after so many failed attempts.
abbrev pub status_after : OutboxOptions → ℕ → OutboxStatus
status_after options attempts = if leb options.max_attempts attempts then failed else pending

-- A claimed row at the end of the call, with what `save` keeps: an error message of an earlier attempt
-- stays, and so does the time of a publication whose save failed.
abbrev pub answered : OutboxOptions → Confirmation → OutboxEvent → ℕ → OutboxEvent
answered options acked r now = record r { status = published; published_at = some now }
answered options (not_acked message) r now = record r {
  status = status_after options (r.attempts + 1);
  attempts = r.attempts + 1;
  last_error = some message;
}
answered options (unsaved message) r now = record r {
  status = status_after options (r.attempts + 1);
  attempts = r.attempts + 1;
  last_error = some message;
  published_at = some now;
}

-- What a call may do with a row: publish it if it is PENDING and has attempts left.
abbrev pub attempt : OutboxOptions → Confirmation → ℕ → Option OutboxEvent → Option OutboxEvent
attempt options answer now none = none
attempt options answer now (some r) =
    if is_pending r.status && ltb r.attempts options.max_attempts
    then some (answered options answer r now)
    else some r

module _ (repository : OutboxRepository) (options : OutboxOptions) (confirm : ℕ → Confirmation)
    (clock : ℕ → ℕ) where
  open repository use {
    Rows, find_one, save, claim, affected, find-save, find-claim, affected_iff, find_one-id,
  }

  abbrev State : Type 0
  State = OutboxState repository

  conclude-row :
      (o : Confirmation) (r : OutboxEvent) (s : State) (j : String)
      → find_one j s.rows ≡ some r
      → r.id ≡ j
      → find_one j (conclude repository options confirm clock o r s).0.rows
        ≡ some (answered options o r (clock s.calls))
  unfolding conclude
  conclude-row acked r s j h e = simp (find-save, (eq_iff r.id j).1 e, h)
  conclude-row (not_acked m) r s j h e =
      simp (find-save, (eq_iff r.id j).1 e, h, keep_undefined_self)
  conclude-row (unsaved m) r s j h e = simp (find-save, (eq_iff r.id j).1 e, h)

  conclude-other :
      (o : Confirmation) (r : OutboxEvent) (s : State) (j : String)
      → (r.id == j) ≡ false
      → find_one j (conclude repository options confirm clock o r s).0.rows ≡ find_one j s.rows
  unfolding conclude
  conclude-other acked r s j e = simp (find-save, e)
  conclude-other (not_acked m) r s j e = simp (find-save, e)
  conclude-other (unsaved m) r s j e = simp (find-save, e)

  -- A row that the caller has just read, and what the claim makes of it.
  module _ (r : OutboxEvent) (s : State) (found : find_one r.id s.rows ≡ some r) where
    claimed-row :
        is_pending r.status ≡ true
        → find_one r.id (claim r.id s.rows) ≡ some (record r { status = publishing })
    claimed-row p = simp (find-claim, eq_refl, found, p)

    pub can : affected r.id s.rows ≡ is_pending r.status
    can = simp (affected_iff, found)

    pub claim_and_publish_self :
        find_one r.id (claim_and_publish repository options confirm clock r s).0.rows ≡ (
          if is_pending r.status
          then some (
              answered options (confirm s.calls) (record r { status = publishing }) (clock s.calls))
          else some r)
    unfolding claim_and_publish publish_record
    claim_and_publish_self = elim (Bool-cases (is_pending r.status)) [
      | inl p ↦
          simp (can, p)
            (conclude-row (confirm s.calls) (record r { status = publishing })
              (record s { rows = claim r.id s.rows }) r.id (claimed-row p) refl)
      | inr n ↦ simp (can, n, find-claim, eq_refl, found)
    ]

    pub claim_and_publish_other :
        (j : String)
        → (r.id == j) ≡ false
        → find_one j (claim_and_publish repository options confirm clock r s).0.rows
          ≡ find_one j s.rows
    unfolding claim_and_publish publish_record
    claim_and_publish_other j e = elim (Bool-cases (is_pending r.status)) [
      | inl p ↦
          simp (can, p)
            (conclude-other (confirm s.calls) (record r { status = publishing })
                (record s { rows = claim r.id s.rows }) j e
              ∙ simp (find-claim, e))
      | inr n ↦ simp (can, n, find-claim, e)
    ]

    publish_found_self :
        find_one r.id (publish_found repository options confirm clock (some r) s).0.rows
        ≡ attempt options (confirm s.calls) (clock s.calls) (some r)
    unfolding publish_found
    publish_found_self = ground (arith, claim_and_publish_self)

    publish_found_other :
        (j : String)
        → (r.id == j) ≡ false
        → find_one j (publish_found repository options confirm clock (some r) s).0.rows
          ≡ find_one j s.rows
    unfolding publish_found
    publish_found_other j e = ground (arith, claim_and_publish_other j e)

  pub found_named :
      (i : String) (s : State) (r : OutboxEvent)
      → find_one i s.rows ≡ some r
      → find_one r.id s.rows ≡ some r
  found_named i s r found =
      subst (λ k. find_one k s.rows ≡ some r) (sym (find_one-id i s.rows r found)) found

  publish_by_id_self :
      (i : String) (s : State)
      → find_one i (publish_by_id repository options confirm clock i s).0.rows
        ≡ attempt options (confirm s.calls) (clock s.calls) (find_one i s.rows)
  unfolding publish_by_id
  publish_by_id_self i s = elim (Option-cases (find_one i s.rows)) [
    | inl missing ↦ simp (missing, publish_found)
    | inr (r, found) ↦ simp found (
        subst
          (λ k.
            find_one k (publish_found repository options confirm clock (some r) s).0.rows
            ≡ attempt options (confirm s.calls) (clock s.calls) (some r))
          (find_one-id i s.rows r found) (publish_found_self r s (found_named i s r found)))
  ]

  publish_by_id_other :
      (i j : String) (s : State)
      → (i == j) ≡ false
      → find_one j (publish_by_id repository options confirm clock i s).0.rows ≡ find_one j s.rows
  unfolding publish_by_id
  publish_by_id_other i j s other = elim (Option-cases (find_one i s.rows)) [
    | inl missing ↦ simp (missing, publish_found)
    | inr (r, found) ↦ simp found (
        publish_found_other r s (found_named i s r found) j
          (subst (λ k. (k == j) ≡ false) (sym (find_one-id i s.rows r found)) other))
  ]

  -- The row of the id after a call, and every other row. If the row is PENDING with attempts left, it
  -- is PUBLISHED at the time of the call when the broker accepts it and the save succeeds; when one of
  -- the two fails, it has one more attempt and the error's message, and is FAILED if its attempts have
  -- reached the limit and else PENDING (with that time, if it was the save). It is else as it was; no other row changes, and a missing one
  -- stays missing.
  pub publish_by_id_lem :
      (i j : String) (s : State)
      → find_one j (publish_by_id repository options confirm clock i s).0.rows ≡ (
          if i == j
          then attempt options (confirm s.calls) (clock s.calls) (find_one j s.rows)
          else find_one j s.rows)
  publish_by_id_lem i j s = elim (Bool-cases (i == j)) [
    | inl same ↦ simp same (
        subst
          (λ k.
            find_one k (publish_by_id repository options confirm clock i s).0.rows
            ≡ attempt options (confirm s.calls) (clock s.calls) (find_one k s.rows))
          ((eq_iff i j).0 same) (publish_by_id_self i s))
    | inr other ↦ simp other (publish_by_id_other i j s other)
  ]
