-- ===== src/Loyalty/Service/Once.antt =====
-- A purchase event that is delivered again changes nothing, and counts once.
use text.Mathlib.TextPositions.{eq_refl}
use bumpa_achievement_system.Common.{
  ℕ, ◌≡◌, refl, ◌∙◌, String, Bool, true, false, Option, none, some, List, [], ◌∷◌, map,
  if◌then◌else◌, any, eq_iff,
}
use bumpa_achievement_system.Events.{Env, PurchaseCompletedEvent}
use bumpa_achievement_system.Outbox.{Confirmation, OutboxRepository, OutboxOptions}
use bumpa_achievement_system.Loyalty.Unlock.{UserAchievement, UserStats, UnlockState, unlock_start}
use bumpa_achievement_system.Loyalty.Unlock.Loop.{unlock_achievements_total}
use bumpa_achievement_system.Loyalty.Badges.{UserBadge}
use bumpa_achievement_system.Loyalty.Service.Database.{LoyaltyDatabase}
use bumpa_achievement_system.Loyalty.Service.{
  LoyaltyState, stats_or_new, count_purchase, save_achievements, save_badges, committed,
  purchase_transaction, handle_purchase_completed,
}

module _ (database : LoyaltyDatabase) (repository : OutboxRepository) (options : OutboxOptions)
    (confirm : ℕ → Confirmation) (clock : ℕ → ℕ) (env : Env) where
  open database use {
    Tables, processed, user_stats, save_stats, achievement_configs, user_achievements,
    upsert_projection, processed-save_processed, user_stats-save_stats,
    user_stats-upsert_projection, user_stats-save_achievement, user_stats-save_badge,
    user_stats-save_processed,
  }

  abbrev State : Type 0
  State = LoyaltyState database repository

  abbrev pub handle : Bool → PurchaseCompletedEvent → State → State × Bool
  handle = handle_purchase_completed database repository options confirm clock env

  committed-processed :
      (e : PurchaseCompletedEvent) (s : State) (u : UnlockState) (t : Tables)
      → processed e.event_id
          (committed database repository options confirm clock env e s (some u) t).0.tables
        ≡ true
  unfolding committed
  committed-processed e s u t = simp (processed-save_processed, eq_refl)

  save_achievements-user_stats :
      (u : String) (rs : List UserAchievement) (t : Tables)
      → user_stats u (save_achievements database rs t) ≡ user_stats u t
  unfolding save_achievements
  save_achievements-user_stats u [] t = refl
  save_achievements-user_stats u (r ∷ rs) t =
      save_achievements-user_stats u rs (database.save_achievement r t)
      ∙ user_stats-save_achievement u r t

  save_badges-user_stats :
      (u : String) (rs : List UserBadge) (t : Tables)
      → user_stats u (save_badges database rs t) ≡ user_stats u t
  unfolding save_badges
  save_badges-user_stats u [] t = refl
  save_badges-user_stats u (r ∷ rs) t =
      save_badges-user_stats u rs (database.save_badge r t) ∙ user_stats-save_badge u r t

  committed-user_stats :
      (v : String) (e : PurchaseCompletedEvent) (s : State) (u : UnlockState) (t : Tables)
      → user_stats v
          (committed database repository options confirm clock env e s (some u) t).0.tables
        ≡ user_stats v t
  unfolding committed
  committed-user_stats v e s u t =
      simp (user_stats-save_processed, save_badges-user_stats, save_achievements-user_stats)

  -- The statistics of a user that the purchase leads to.
  abbrev pub counted : PurchaseCompletedEvent → State → UserStats
  counted e s =
      count_purchase (stats_or_new e.payload.user_id (user_stats e.payload.user_id s.tables))
        e.payload.amount_kobo

  stats_or_new-user_id :
      (u : String) (o : Option UserStats)
      → ((r : UserStats) → o ≡ some r → r.user_id ≡ u)
      → (stats_or_new u o).user_id ≡ u
  unfolding stats_or_new
  stats_or_new-user_id u none h = refl
  stats_or_new-user_id u (some r) h = h r refl

  -- What the unlock loop of the transaction ends with.
  transaction_lem :
      (e : PurchaseCompletedEvent) (s : State)
      → (u : UnlockState) × (purchase_transaction database repository options confirm clock env e s
          ≡ committed database repository options confirm clock env e s
              (some u)
              (save_stats (counted e s) (upsert_projection e.payload.user s.tables)))
  unfolding purchase_transaction
  transaction_lem e s =
      let t' = save_stats (counted e s) (upsert_projection e.payload.user s.tables) in
      let (u, ends) = unlock_achievements_total env e (counted e s) (achievement_configs t') (
        unlock_start
          (map (λ (r : UserAchievement). r.achievement_id) (user_achievements e.payload.user_id t'))
          s.drawn) in
      (u, simp (user_stats-upsert_projection, ends))

  module _ (e : PurchaseCompletedEvent) (s : State)
      (fresh : processed e.event_id s.tables ≡ false) where
    handled_marks : processed e.event_id (handle true e s).0.tables ≡ true
    unfolding handle_purchase_completed
    handled_marks =
        let (u, ends) = transaction_lem e s in
        simp (fresh, ends)
          (committed-processed e s u
            (save_stats (counted e s) (upsert_projection e.payload.user s.tables)))

    -- A delivery that commits counts the purchase: the user's statistics become one purchase and its
    -- amount more (a row of a user carries the user's id), and the event is marked as processed.
    pub handled_counts :
        ((r : UserStats)
          → user_stats e.payload.user_id s.tables ≡ some r
          → r.user_id ≡ e.payload.user_id)
        → (user_stats e.payload.user_id (handle true e s).0.tables ≡ some (counted e s))
          × (processed e.event_id (handle true e s).0.tables ≡ true)
    unfolding handle_purchase_completed
    handled_counts own =
        let (u, ends) = transaction_lem e s in
        let owner =
          stats_or_new-user_id e.payload.user_id (user_stats e.payload.user_id s.tables) own in
        (
          simp (
            fresh,
            ends,
            committed-user_stats,
            user_stats-save_stats,
            (eq_iff (stats_or_new e.payload.user_id (user_stats e.payload.user_id s.tables)).user_id
                  e.payload.user_id).1
                owner,
          ),
          handled_marks,
        )

  handle_known :
      (b : Bool) (e : PurchaseCompletedEvent) (s : State)
      → processed e.event_id s.tables ≡ true
      → handle b e s ≡ (s, true)
  unfolding handle_purchase_completed
  handle_known b e s known = simp known

  handle_throws :
      (e : PurchaseCompletedEvent) (s : State)
      → processed e.event_id s.tables ≡ false
      → handle false e s ≡ (s, false)
  unfolding handle_purchase_completed
  handle_throws e s fresh = simp fresh

  -- The broker delivers the event again and again; each delivery's transaction commits or throws.
  pub deliveries : PurchaseCompletedEvent → List Bool → State → State
  deliveries e [] s = s
  deliveries e (commits ∷ rest) s = deliveries e rest (handle commits e s).0

  deliveries_known :
      (e : PurchaseCompletedEvent) (bs : List Bool) (s : State)
      → processed e.event_id s.tables ≡ true
      → deliveries e bs s ≡ s
  unfolding deliveries
  deliveries_known e [] s known = refl
  deliveries_known e (b ∷ bs) s known =
      simp (handle_known b e s known) (deliveries_known e bs s known)

  -- An event that is not yet processed takes effect once, however often it is delivered: the state
  -- after any deliveries is that after the first that commits, and is the old one if none does.
  pub deliveries_once :
      (e : PurchaseCompletedEvent) (bs : List Bool) (s : State)
      → processed e.event_id s.tables ≡ false
      → deliveries e bs s ≡ (if any (λ b. b) bs then (handle true e s).0 else s)
  unfolding deliveries
  deliveries_once e [] s fresh = refl
  deliveries_once e (true ∷ bs) s fresh =
      deliveries_known e bs (handle true e s).0 (handled_marks e s fresh)
  deliveries_once e (false ∷ bs) s fresh =
      simp (handle_throws e s fresh) (deliveries_once e bs s fresh)
