-- ===== src/Outbox/Sent.antt =====
-- The attempts of a row stay within bounds, and so does how often the broker accepts its event.
use mathlib.Core.Path.{subst}
use bumpa_achievement_system.Common.{
  ℕ, ◌+◌, ◌≡◌, ◌≤◌, ◌<◌, refl, sym, ◌∙◌, inl, inr, String, Bool, true, false, some, List, [], ◌∷◌,
  arith, if◌then◌else◌, leb, ◌==◌, eq_iff, Bool-cases, Option-cases, some-eq, ◌||◌, ◌&&◌, has,
  NoRepeat, All, All-map, map,
}
use bumpa_achievement_system.Events.{OutboxEvent, pending, publishing, failed}
use bumpa_achievement_system.Outbox.{
  OutboxRepository, is_pending, is_published, OutboxOptions, OutboxState, Confirmation, acked,
  not_acked, unsaved, conclude, publish_record, claim_and_publish, publish_found, publish_by_id,
  publish_many, for_events, publish_pending_batch,
}
use bumpa_achievement_system.Outbox.Row.{
  answered, claim_and_publish_self, claim_and_publish_other, can, found_named,
}

-- How often a name stands in the list.
abbrev pub occurrences : List String → String → ℕ
occurrences [] a = 0
occurrences (x ∷ xs) a = let rest = occurrences xs a in if x == a then rest + 1 else rest

-- A row with the identifiers of the accepted events, of which its own stands there once for each
-- attempt at most, and once more if it is published.
pub record IsGoodRow (options : OutboxOptions) (sent : List String) (r : OutboxEvent) : Type 0 where
  pub bounded : r.attempts ≤ options.max_attempts
  pub pending_left : r.status ≡ pending → r.attempts < options.max_attempts
  pub failed_spent : r.status ≡ failed → r.attempts ≡ options.max_attempts
  pub accepted : occurrences sent r.id ≤ r.attempts + (if is_published r.status then 1 else 0)
  pub accepted_bounded : occurrences sent r.id ≤ options.max_attempts

abbrev acknowledged : Confirmation → Bool
acknowledged acked = true
acknowledged (not_acked m) = false
acknowledged (unsaved m) = true

answered-IsGoodRow :
    (options : OutboxOptions) (o : Confirmation) (r : OutboxEvent) (now : ℕ) (sent : List String)
    → is_pending r.status ≡ true
    → IsGoodRow options sent r
    → IsGoodRow options
        (if acknowledged o then r.id ∷ sent else sent)
        (answered options o (record r { status = publishing }) now)
answered-IsGoodRow options acked r now sent p g =
    ground (arith, g.pending_left, g.accepted, g.accepted_bounded)
answered-IsGoodRow options (not_acked m) r now sent p g =
    ground (arith, g.pending_left, g.accepted, g.accepted_bounded)
answered-IsGoodRow options (unsaved m) r now sent p g =
    ground (arith, g.pending_left, g.accepted, g.accepted_bounded)

other-IsGoodRow :
    (options : OutboxOptions) (b : Bool) (i : String) (sent : List String) (r : OutboxEvent)
    → (i == r.id) ≡ false
    → IsGoodRow options sent r
    → IsGoodRow options (if b then i ∷ sent else sent) r
other-IsGoodRow options true i sent r n g =
    ground (arith, g.pending_left, g.accepted, g.accepted_bounded, g.failed_spent)
other-IsGoodRow options false i sent r n g = g

module _ (repository : OutboxRepository) (options : OutboxOptions) (confirm : ℕ → Confirmation)
    (clock : ℕ → ℕ) where
  open repository use {Rows, find_one, find_pending, claim, affected, find_one-id}

  abbrev State : Type 0
  State = OutboxState repository

  -- Every row is within its attempts, and its event was accepted no more often than they allow.
  pub record IsGood (s : State) : Type 0 where
    pub row :
        (i : String) (r : OutboxEvent) → find_one i s.rows ≡ some r → IsGoodRow options s.sent r

  conclude-sent :
      (o : Confirmation) (r : OutboxEvent) (s : State)
      → (conclude repository options confirm clock o r s).0.sent
        ≡ (if acknowledged o then r.id ∷ s.sent else s.sent)
  unfolding conclude
  conclude-sent acked r s = refl
  conclude-sent (not_acked m) r s = refl
  conclude-sent (unsaved m) r s = refl

  module _ (r : OutboxEvent) (s : State) (found : find_one r.id s.rows ≡ some r) where
    claim_and_publish_sent :
        (claim_and_publish repository options confirm clock r s).0.sent
        ≡ (if is_pending r.status && acknowledged (confirm s.calls) then r.id ∷ s.sent else s.sent)
    unfolding claim_and_publish publish_record
    claim_and_publish_sent = elim (Bool-cases (is_pending r.status)) [
      | inl p ↦
          simp (can repository options confirm clock r s found, p)
            (conclude-sent (confirm s.calls) (record r { status = publishing })
              (record s { rows = claim r.id s.rows }))
      | inr n ↦ simp (can repository options confirm clock r s found, n)
    ]

    same_row :
        (q : OutboxEvent)
        → find_one r.id (claim_and_publish repository options confirm clock r s).0.rows ≡ some q
        → IsGood s
        → IsGoodRow options (claim_and_publish repository options confirm clock r s).0.sent q
    same_row q h g =
        let after = sym (claim_and_publish_self repository options confirm clock r s found) ∙ h in
        elim (Bool-cases (is_pending r.status)) [
          | inl p ↦
              simp (claim_and_publish_sent, p)
                (subst
                  (IsGoodRow options
                    (if acknowledged (confirm s.calls) then r.id ∷ s.sent else s.sent))
                  (some-eq (rw p at after))
                  (answered-IsGoodRow options (confirm s.calls) r (clock s.calls) s.sent p
                    (g.row r.id r found)))
          | inr n ↦
              simp (claim_and_publish_sent, n)
                (subst (IsGoodRow options s.sent) (some-eq (rw n at after)) (g.row r.id r found))
        ]

    other_row :
        (j : String) (q : OutboxEvent)
        → (r.id == j) ≡ false
        → find_one j (claim_and_publish repository options confirm clock r s).0.rows ≡ some q
        → IsGood s
        → IsGoodRow options (claim_and_publish repository options confirm clock r s).0.sent q
    other_row j q e h g =
        let before =
          sym (claim_and_publish_other repository options confirm clock r s found j e) ∙ h in
        simp claim_and_publish_sent (
          other-IsGoodRow options (is_pending r.status && acknowledged (confirm s.calls)) r.id
            s.sent q (subst (λ k. (r.id == k) ≡ false) (sym (find_one-id j s.rows q before)) e)
            (g.row j q before))

    pub claim_and_publish-IsGood :
        IsGood s → IsGood (claim_and_publish repository options confirm clock r s).0
    claim_and_publish-IsGood g = record {
      row = λ j q h. elim (Bool-cases (r.id == j)) [
        | inl same ↦
            same_row q
              (subst
                (λ k.
                  find_one k (claim_and_publish repository options confirm clock r s).0.rows
                  ≡ some q)
                (sym ((eq_iff r.id j).0 same)) h)
              g
        | inr other ↦ other_row j q other h g
      ];
    }

  stopped_or :
      (b : Bool) (s : State) (t : State × Bool)
      → IsGood s
      → IsGood t.0
      → IsGood (if b then (s, false) else t).0
  stopped_or true s t g h = g
  stopped_or false s t g h = h

  -- A call for one row keeps every row within its attempts: PENDING rows have attempts left, FAILED
  -- rows have none. The broker has accepted a row's event at most once for each failed attempt, where
  -- an attempt also fails when the broker accepts and the save does not succeed, and once more if the
  -- row is PUBLISHED, and in all at most as often as the option allows attempts.
  pub publish_by_id-IsGood :
      (i : String) (s : State)
      → IsGood s
      → IsGood (publish_by_id repository options confirm clock i s).0
  unfolding publish_by_id publish_found
  publish_by_id-IsGood i s g = elim (Option-cases (find_one i s.rows)) [
    | inl missing ↦ simp missing g
    | inr (r, found) ↦
        let good =
          claim_and_publish-IsGood r s (found_named repository options confirm clock i s r found)
            g in
        simp found
          (stopped_or (is_published r.status || leb options.max_attempts r.attempts) s _ g good)
  ]

  pub publish_many-IsGood :
      (ids : List String) (s : State)
      → IsGood s
      → IsGood (publish_many repository options confirm clock ids s)
  unfolding publish_many
  publish_many-IsGood [] s g = g
  publish_many-IsGood (i ∷ ids) s g =
      publish_many-IsGood ids (publish_by_id repository options confirm clock i s).0
        (publish_by_id-IsGood i s g)

  -- The rows of a batch are as they were read until their turn comes.
  abbrev pub AreFound : State → List OutboxEvent → Type 0
  AreFound s = All (λ (r : OutboxEvent). find_one r.id s.rows ≡ some r)

  pub still_found :
      (r : OutboxEvent) (s : State) (found : find_one r.id s.rows ≡ some r) (rs : List OutboxEvent)
      → has (map (λ (q : OutboxEvent). q.id) rs) r.id ≡ false
      → AreFound s rs
      → AreFound (claim_and_publish repository options confirm clock r s).0 rs
  still_found r s found [] n f = tt
  still_found r s found (q ∷ rs) n (f, fs) = (
    claim_and_publish_other repository options confirm clock r s found q.id
          (ground (arith, eq_iff q.id r.id, eq_iff r.id q.id))
        ∙ f,
    still_found r s found rs (ground arith) fs,
  )

  for_events-IsGood :
      (rs : List OutboxEvent) (s : State)
      → AreFound s rs
      → NoRepeat (map (λ (r : OutboxEvent). r.id) rs)
      → IsGood s
      → IsGood (for_events repository options confirm clock rs s)
  unfolding for_events
  for_events-IsGood [] s f n g = g
  for_events-IsGood (r ∷ rs) s (f, fs) (n, ns) g =
      for_events-IsGood rs (claim_and_publish repository options confirm clock r s).0
        (still_found r s f rs n fs) ns (claim_and_publish-IsGood r s f g)

  -- A tick of the scanner keeps the same.
  pub publish_pending_batch-IsGood :
      (s : State) → IsGood s → IsGood (publish_pending_batch repository options confirm clock s)
  unfolding publish_pending_batch
  publish_pending_batch-IsGood s g =
      for_events-IsGood (find_pending options.batch_size s.rows) s
        (All-map _ _ (find_pending options.batch_size s.rows) (λ r p. p.0)
          (repository.find_pending-found options.batch_size s.rows))
        (repository.find_pending-once options.batch_size s.rows) g
