-- ===== src/Loyalty/Service.antt =====
-- apps/loyalty-service/src/loyalty/loyalty.service.ts: `handlePurchaseCompleted`, the consumer of
-- PurchaseCompleted.v1. The transaction either commits as a whole or throws and leaves nothing;
-- which of the two is the database's, the argument `commits`. Its statements are sent table by table
-- here, the achievements and the outbox rows of the loop after the loop, where the code alternates
-- them; nothing is read in between.
pub mod Database
pub mod Once
use bumpa_achievement_system.Common.{
  ℕ, ◌+◌, String, Bool, true, false, Option, none, some, List, [], ◌∷◌, ◌++◌, map, if◌then◌else◌,
}
use bumpa_achievement_system.Events.{Env, PurchaseCompletedEvent, OutboxEvent}
use bumpa_achievement_system.Outbox.{
  Confirmation, OutboxRepository, OutboxOptions, OutboxState, publish_many,
}
use bumpa_achievement_system.Loyalty.Unlock.{
  UserAchievement, UserStats, UnlockState, unlock_start, unlock_achievements,
}
use bumpa_achievement_system.Loyalty.Badges.{UserBadge, BadgeRows, unlock_badges}
use Database.{LoyaltyDatabase}

module _ (database : LoyaltyDatabase) (repository : OutboxRepository) where
  pub record LoyaltyState : Type 0 where
    pub tables : database.Tables
    pub outbox : OutboxState repository
    pub drawn : ℕ

-- findOne(UserStats) ?? create(UserStats, { purchaseCount: 0, totalSpendKobo: 0 })
pub stats_or_new : String → Option UserStats → UserStats
stats_or_new user_id none = record { user_id = user_id; purchase_count = 0; total_spend_kobo = 0 }
stats_or_new user_id (some stats) = stats

pub count_purchase : UserStats → ℕ → UserStats
count_purchase stats amount_kobo = record stats {
  purchase_count = stats.purchase_count + 1;
  total_spend_kobo = stats.total_spend_kobo + amount_kobo;
}

module _ (database : LoyaltyDatabase) where
  open database use {Tables, save_achievement, save_badge}

  pub save_achievements : List UserAchievement → Tables → Tables
  save_achievements [] t = t
  save_achievements (r ∷ rs) t = save_achievements rs (save_achievement r t)

  pub save_badges : List UserBadge → Tables → Tables
  save_badges [] t = t
  save_badges (r ∷ rs) t = save_badges rs (save_badge r t)

module _ (repository : OutboxRepository) where
  pub save_outbox : List OutboxEvent → repository.Rows → repository.Rows
  save_outbox [] t = t
  save_outbox (r ∷ rs) t = save_outbox rs (repository.save r t)

module _ (database : LoyaltyDatabase) (repository : OutboxRepository) (options : OutboxOptions)
    (confirm : ℕ → Confirmation) (clock : ℕ → ℕ) (env : Env) where
  open database use {
    Tables, processed, user_stats, achievement_configs, user_achievements, badge_configs,
    user_badges, upsert_projection, save_stats, save_processed,
  }

  abbrev State : Type 0
  State = LoyaltyState database repository

  -- The rest of the transaction, after the unlock loop.
  pub finish_purchase :
      PurchaseCompletedEvent
      → UnlockState
      → Tables
      → repository.Rows
      → Tables × repository.Rows × BadgeRows
  unfolding save_achievements save_badges save_outbox
  finish_purchase e unlocked t rows =
      let user = e.payload.user_id in
      let t' = save_achievements database unlocked.saved t in
      let badges =
        unlock_badges env e
          (map (λ (r : UserAchievement). r.achievement_id) (user_achievements user t'))
          (badge_configs t') (map (λ (r : UserBadge). r.badge_id) (user_badges user t'))
          unlocked.drawn in
      (
        save_processed e.event_id (save_badges database badges.saved t'),
        save_outbox repository badges.outbox (save_outbox repository unlocked.outbox rows),
        badges,
      )

  -- What a committed transaction leaves, and the identifiers that it hands to publishMany.
  pub committed : PurchaseCompletedEvent → State → Option UnlockState → Tables → State × List String
  unfolding finish_purchase
  committed e s none t = (s, [])
  committed e s (some unlocked) t =
      let (t', rows, badges) = finish_purchase e unlocked t s.outbox.rows in
      (
        record {
          tables = t';
          outbox = record { rows = rows; sent = s.outbox.sent; calls = s.outbox.calls };
          drawn = badges.drawn;
        },
        unlocked.outbox_event_ids ++ badges.outbox_event_ids,
      )

  -- The transaction of the handler.
  pub purchase_transaction : PurchaseCompletedEvent → State → State × List String
  unfolding stats_or_new count_purchase committed
  purchase_transaction e s =
      let user = e.payload.user_id in
      let t = upsert_projection e.payload.user s.tables in
      let stats = count_purchase (stats_or_new user (user_stats user t)) e.payload.amount_kobo in
      let t' = save_stats stats t in
      committed e s
        (unlock_achievements env e stats (achievement_configs t') (
          unlock_start (map (λ (r : UserAchievement). r.achievement_id) (user_achievements user t'))
            s.drawn))
        t'

  publish : State × List String → State
  publish (s, ids) = record s {
    outbox = publish_many repository options confirm clock ids s.outbox;
  }

  -- handlePurchaseCompleted; the Boolean of the result tells whether it returned, else it threw.
  unfoldable pub handle_purchase_completed : Bool → PurchaseCompletedEvent → State → State × Bool
  unfolding purchase_transaction publish
  handle_purchase_completed commits e s =
      if processed e.event_id s.tables
      then (s, true)
      else if commits
      then (publish (purchase_transaction e s), true)
      else (s, false)
