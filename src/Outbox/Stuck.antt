-- ===== src/Outbox/Stuck.antt =====
-- Rows that are not PENDING are final for the outbox, and a tick publishes what it reads.
use mathlib.Core.Path.{subst}
use mathlib.Core.List.{Memᴰ}
use bumpa_achievement_system.Common.{
  ℕ, ◌≡◌, refl, sym, ap, ◌∙◌, inl, inr, String, false, some, some-eq, List, [], ◌∷◌, arith, ◌==◌,
  eq_iff, Bool-cases, has, NoRepeat, All, All-map, map, filter, take,
}
use bumpa_achievement_system.Events.{OutboxEvent, pending, published}
use bumpa_achievement_system.Outbox.{
  Confirmation, acked, OutboxRepository, is_pending, OutboxOptions, OutboxState, claim_and_publish,
  publish_by_id, for_events, publish_pending_batch,
}
use bumpa_achievement_system.Outbox.Row.{
  claim_and_publish_self, claim_and_publish_other, publish_by_id_lem,
}
use bumpa_achievement_system.Outbox.Sent.{AreFound, still_found}

-- What a service's processes ask of its outbox, one call after another.
pub data OutboxCall : Type 0 where
  by_id : String → OutboxCall
  batch : OutboxCall

module _ (repository : OutboxRepository) (options : OutboxOptions) (confirm : ℕ → Confirmation)
    (clock : ℕ → ℕ) where
  open repository use {
    Rows, in_order, find_one, find_pending, find_pending-found, find_pending-once,
  }

  abbrev State : Type 0
  State = OutboxState repository

  abbrev pub run_call : OutboxCall → State → State
  run_call (by_id i) s = (publish_by_id repository options confirm clock i s).0
  run_call batch s = publish_pending_batch repository options confirm clock s

  pub run_calls : List OutboxCall → State → State
  run_calls [] s = s
  run_calls (c ∷ cs) s = run_calls cs (run_call c s)

  abbrev AreOthers : String → List OutboxEvent → Type 0
  AreOthers j = All (λ (q : OutboxEvent). (q.id == j) ≡ false)

  for_events_other :
      (j : String) (rs : List OutboxEvent) (s : State)
      → AreFound repository options confirm clock s rs
      → NoRepeat (map (λ (r : OutboxEvent). r.id) rs)
      → AreOthers j rs
      → find_one j (for_events repository options confirm clock rs s).rows ≡ find_one j s.rows
  unfolding for_events
  for_events_other j [] s f n o = refl
  for_events_other j (r ∷ rs) s (f, fs) (n, ns) (o, os) =
      for_events_other j rs (claim_and_publish repository options confirm clock r s).0
        (still_found repository options confirm clock r s f rs n fs) ns os
      ∙ claim_and_publish_other repository options confirm clock r s f j o

  all_found :
      (s : State)
      → AreFound repository options confirm clock s (find_pending options.batch_size s.rows)
  all_found s =
      All-map _ _ (find_pending options.batch_size s.rows) (λ r p. p.0)
        (find_pending-found options.batch_size s.rows)

  module _ (j : String) (r : OutboxEvent) (final : is_pending r.status ≡ false) where
    pending_is_other :
        (s : State) (q : OutboxEvent)
        → find_one j s.rows ≡ some r
        → ((find_one q.id s.rows ≡ some q) × (q.status ≡ pending))
        → (q.id == j) ≡ false
    pending_is_other s q h (found, p) = elim (Bool-cases (q.id == j)) [
      | inl same ↦
          let here = subst (λ k. find_one k s.rows ≡ some q) ((eq_iff q.id j).0 same) found in
          let equal : r ≡ q = some-eq (sym h ∙ here) in
          absurd (cc (ap (λ (x : OutboxEvent). is_pending x.status) equal, ap is_pending p))
      | inr other ↦ other
    ]

    run_call_final :
        (c : OutboxCall) (s : State)
        → find_one j s.rows ≡ some r
        → find_one j (run_call c s).rows ≡ some r
    run_call_final (by_id i) s h =
        simp (publish_by_id_lem repository options confirm clock i j s, h, final) (ground arith)
    run_call_final batch s h =
        unfold publish_pending_batch in
        (for_events_other j (find_pending options.batch_size s.rows) s (all_found s)
            (find_pending-once options.batch_size s.rows)
            (All-map _ _ (find_pending options.batch_size s.rows) (λ q. pending_is_other s q h)
              (find_pending-found options.batch_size s.rows))
          ∙ h)

    -- Whatever calls follow, a row that is not PENDING stays as it is. So PUBLISHED and FAILED are
    -- final, and a row left in PUBLISHING, by a process that stopped between its claim and the
    -- broker's answer, is never claimed, published or failed by any later call.
    pub run_calls_final :
        (cs : List OutboxCall) (s : State)
        → find_one j s.rows ≡ some r
        → find_one j (run_calls cs s).rows ≡ some r
    unfolding run_calls
    run_calls_final [] s h = h
    run_calls_final (c ∷ cs) s h = run_calls_final cs (run_call c s) (run_call_final c s h)

  module _ (up : (n : ℕ) → confirm n ≡ acked) where
    IsPublishedIn : State → OutboxEvent → Type 0
    IsPublishedIn t r = (q : OutboxEvent) × (find_one r.id t.rows ≡ some q) × (q.status ≡ published)

    others_of :
        (r : OutboxEvent) (rs : List OutboxEvent)
        → has (map (λ (q : OutboxEvent). q.id) rs) r.id ≡ false
        → AreOthers r.id rs
    others_of r [] n = tt
    others_of r (q ∷ rs) n = (ground arith, others_of r rs (ground arith))

    abbrev AreWaiting : State → List OutboxEvent → Type 0
    AreWaiting s = All (λ (q : OutboxEvent). (find_one q.id s.rows ≡ some q) × (q.status ≡ pending))

    still_waiting :
        (r : OutboxEvent) (s : State) (found : find_one r.id s.rows ≡ some r)
        (rs : List OutboxEvent)
        → AreOthers r.id rs
        → AreWaiting s rs
        → AreWaiting (claim_and_publish repository options confirm clock r s).0 rs
    still_waiting r s found [] n f = tt
    still_waiting r s found (q ∷ rs) (n, ns) ((f, p), fs) = (
      (
        claim_and_publish_other repository options confirm clock r s found q.id
              (ground (arith, n, eq_iff q.id r.id, eq_iff r.id q.id))
            ∙ f,
        p,
      ),
      still_waiting r s found rs ns fs,
    )

    published_self :
        (q : OutboxEvent) (s : State)
        → find_one q.id s.rows ≡ some q
        → q.status ≡ pending
        → find_one q.id (claim_and_publish repository options confirm clock q s).0.rows
          ≡ some (record q { status = published; published_at = some (clock s.calls) })
    published_self q s found p =
        claim_and_publish_self repository options confirm clock q s found
        ∙ simp (ap is_pending p, up s.calls)

    for_events_published :
        (rs : List OutboxEvent) (s : State) (r : OutboxEvent)
        → AreWaiting s rs
        → NoRepeat (map (λ (q : OutboxEvent). q.id) rs)
        → Memᴰ r rs
        → IsPublishedIn (for_events repository options confirm clock rs s) r
    unfolding for_events IsPublishedIn
    for_events_published [] s r f n m = elim m [ ]
    for_events_published (q ∷ rs) s r ((found, p), fs) (n, ns) (Memᴰ.head e) =
        let t = (claim_and_publish repository options confirm clock q s).0 in
        let others = others_of q rs n in
        let later =
          for_events_other q.id rs t
            (All-map _ _ rs (λ x w. w.0) (still_waiting q s found rs others fs)) ns others in
        subst (IsPublishedIn (for_events repository options confirm clock rs t)) (sym e) (
          record q { status = published; published_at = some (clock s.calls) },
          later ∙ published_self q s found p,
          refl,
        )
    for_events_published (q ∷ rs) s r ((found, p), fs) (n, ns) (Memᴰ.tail m) =
        for_events_published rs (claim_and_publish repository options confirm clock q s).0 r
          (still_waiting q s found rs (others_of q rs n) fs) ns m

    -- While the broker accepts and the saves succeed, a tick publishes the PENDING rows that were
    -- inserted first, as many as the batch holds: all of them when there are no more than that.
    pub publish_pending_batch_published :
        (s : State) (r : OutboxEvent)
        → Memᴰ r (
            take options.batch_size
              (filter (λ (q : OutboxEvent). is_pending q.status) (in_order s.rows)))
        → (q : OutboxEvent) × (find_one r.id
              (publish_pending_batch repository options confirm clock s).rows
            ≡ some q)
          × (q.status ≡ published)
    unfolding publish_pending_batch IsPublishedIn
    publish_pending_batch_published s r m =
        for_events_published (find_pending options.batch_size s.rows) s r
          (find_pending-found options.batch_size s.rows)
          (find_pending-once options.batch_size s.rows)
          (subst (Memᴰ r) (sym (repository.find_pending-oldest options.batch_size s.rows)) m)
