-- ===== src/Cashback/Jobs/Once.antt =====
-- BadgeUnlocked.v1 is handled once, and gets a row and a job.
use text.Mathlib.TextPositions.{eq_refl}
use bumpa_achievement_system.Common.{
  ℕ, ◌≡◌, refl, ◌∙◌, ap, inl, inr, String, Bool, true, false, some, [], ◌∷◌, ◌++◌, Bool-cases,
}
use bumpa_achievement_system.Events.{Env, BadgeUnlockedEvent}
use bumpa_achievement_system.Outbox.{Confirmation, OutboxRepository, OutboxOptions}
use bumpa_achievement_system.Cashback.Store.{CashbackDatabase, CashbackTransaction, stored}
use bumpa_achievement_system.Cashback.Jobs.{
  CashbackState, handle_badge_unlocked, queue_cashback, transaction_for,
}

module _ (database : CashbackDatabase) (repository : OutboxRepository) (options : OutboxOptions)
    (confirm : ℕ → Confirmation) (clock : ℕ → ℕ) (env : Env) (provider_name : String)
    (default_amount : ℕ) where
  abbrev State : Type 0
  State = CashbackState database repository

  abbrev handle : Bool → BadgeUnlockedEvent → State → State × Bool
  handle =
      handle_badge_unlocked database repository options confirm clock env provider_name
        default_amount

  handled_once :
      (e : BadgeUnlockedEvent) (s : State)
      → database.processed e.event_id (handle true e s).0.tables ≡ true
  unfolding handle_badge_unlocked queue_cashback
  handled_once e s = elim (Bool-cases (database.processed e.event_id s.tables)) [
    | inl old ↦ simp old
    | inr new ↦ simp (new, database.processed-save_processed, eq_refl)
  ]

  handle_known :
      (b : Bool) (e : BadgeUnlockedEvent) (s : State)
      → database.processed e.event_id s.tables ≡ true
      → handle b e s ≡ (s, true)
  unfolding handle_badge_unlocked
  handle_known b e s known = simp known

  -- An event that was handled changes nothing when it is delivered again, whether or not the second
  -- transaction would commit: no row, no job, no publication.
  pub handle_badge_unlocked_once :
      (commits : Bool) (e d : BadgeUnlockedEvent) (s : State)
      → d.event_id ≡ e.event_id
      → handle commits d (handle true e s).0 ≡ ((handle true e s).0, true)
  handle_badge_unlocked_once commits e d s h =
      handle_known commits d (handle true e s).0
        (ap (λ i. database.processed i (handle true e s).0.tables) h ∙ handled_once e s)

  -- A new event whose transaction commits adds one job to the queue, for the row of the user's badge
  -- where there is one and else for a new row; the row is stored when the job is there.
  pub handle_badge_unlocked_queues :
      (e : BadgeUnlockedEvent) (s : State)
      → database.processed e.event_id s.tables ≡ false
      → (r : CashbackTransaction) × (r
          ≡ transaction_for database repository options confirm clock env provider_name
              default_amount e
              (database.find_by_badge e.payload.user.id e.payload.badge_name s.tables)
              s.drawn)
        × ((handle true e s).0.queue ≡ s.queue ++ record { transaction_id = r.id; event = e } ∷ [])
        × (database.find_transaction r.id (handle true e s).0.tables
            ≡ some (stored (database.find_transaction r.id s.tables) r))
  unfolding handle_badge_unlocked queue_cashback
  handle_badge_unlocked_queues e s new = (
    transaction_for database repository options confirm clock env provider_name default_amount e
        (database.find_by_badge e.payload.user.id e.payload.badge_name s.tables) s.drawn,
    refl,
    simp new,
    simp (new, database.find-save_processed, database.find-save, eq_refl),
  )
