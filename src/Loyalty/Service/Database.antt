-- ===== src/Loyalty/Service/Database.antt =====
-- The tables of loyalty_db that loyalty.service.ts reads and writes in its transaction: TypeORM over
-- PostgreSQL, which is not in the repository. What the code relies on is stated as laws.
use bumpa_achievement_system.Common.{
  ◌≡◌, String, Bool, Option, some, List, if◌then◌else◌, ◌==◌, ◌||◌,
}
use bumpa_achievement_system.Events.{UserSnapshot}
use bumpa_achievement_system.Loyalty.Unlock.{AchievementConfig, UserAchievement, UserStats}
use bumpa_achievement_system.Loyalty.Badges.{BadgeConfig, UserBadge}

pub record LoyaltyDatabase : Type 1 where
  pub Tables : Type 0
  -- Queries: an event's row exists, a user's statistics, the active configs by group and position,
  -- the active badges by position, and the rows of a user.
  pub processed : String → Tables → Bool
  pub user_stats : String → Tables → Option UserStats
  pub achievement_configs : Tables → List AchievementConfig
  pub user_achievements : String → Tables → List UserAchievement
  pub badge_configs : Tables → List BadgeConfig
  pub user_badges : String → Tables → List UserBadge
  -- Statements.
  pub upsert_projection : UserSnapshot → Tables → Tables
  pub save_stats : UserStats → Tables → Tables
  pub save_achievement : UserAchievement → Tables → Tables
  pub save_badge : UserBadge → Tables → Tables
  pub save_processed : String → Tables → Tables
  -- A saved row is there; the other statements leave the table of processed events alone.
  pub processed-save_processed :
      (i j : String) (t : Tables) → processed i (save_processed j t) ≡ (j == i || processed i t)
  pub processed-upsert_projection :
      (i : String) (u : UserSnapshot) (t : Tables)
      → processed i (upsert_projection u t) ≡ processed i t
  pub processed-save_stats :
      (i : String) (r : UserStats) (t : Tables) → processed i (save_stats r t) ≡ processed i t
  pub processed-save_achievement :
      (i : String) (r : UserAchievement) (t : Tables)
      → processed i (save_achievement r t) ≡ processed i t
  pub processed-save_badge :
      (i : String) (r : UserBadge) (t : Tables) → processed i (save_badge r t) ≡ processed i t
  -- The statistics of a user are the row saved last.
  pub user_stats-save_stats :
      (u : String) (r : UserStats) (t : Tables)
      → user_stats u (save_stats r t) ≡ (if r.user_id == u then some r else user_stats u t)
  pub user_stats-upsert_projection :
      (u : String) (p : UserSnapshot) (t : Tables)
      → user_stats u (upsert_projection p t) ≡ user_stats u t
  pub user_stats-save_achievement :
      (u : String) (r : UserAchievement) (t : Tables)
      → user_stats u (save_achievement r t) ≡ user_stats u t
  pub user_stats-save_badge :
      (u : String) (r : UserBadge) (t : Tables) → user_stats u (save_badge r t) ≡ user_stats u t
  pub user_stats-save_processed :
      (u i : String) (t : Tables) → user_stats u (save_processed i t) ≡ user_stats u t
