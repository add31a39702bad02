-- ===== src/Loyalty/Tests/Tables.antt =====
-- Tables of loyalty_db, which have the laws of the database.
use bumpa_achievement_system.Common.{
  refl, String, Option, some, List, ◌∷◌, filter, if◌then◌else◌, ◌==◌, has,
}
use bumpa_achievement_system.Events.{UserSnapshot}
use bumpa_achievement_system.Loyalty.Unlock.{AchievementConfig, UserAchievement, UserStats}
use bumpa_achievement_system.Loyalty.Badges.{BadgeConfig, UserBadge}
use bumpa_achievement_system.Loyalty.Service.Database.{LoyaltyDatabase}

pub record Tables : Type 0 where
  pub events : List String
  pub stats : String → Option UserStats
  pub achievements : List AchievementConfig
  pub unlocked : List UserAchievement
  pub badges : List BadgeConfig
  pub awarded : List UserBadge
  pub users : List UserSnapshot

abbrev pub database : LoyaltyDatabase
database = record {
  Tables = Tables;
  processed = λ i t. has t.events i;
  user_stats = λ u t. t.stats u;
  achievement_configs = λ t. t.achievements;
  user_achievements = λ u t. filter (λ (r : UserAchievement). r.user_id == u) t.unlocked;
  badge_configs = λ t. t.badges;
  user_badges = λ u t. filter (λ (r : UserBadge). r.user_id == u) t.awarded;
  upsert_projection = λ u t. record t { users = u ∷ t.users };
  save_stats = λ r t. record t { stats = λ u. if r.user_id == u then some r else t.stats u };
  save_achievement = λ r t. record t { unlocked = r ∷ t.unlocked };
  save_badge = λ r t. record t { awarded = r ∷ t.awarded };
  save_processed = λ i t. record t { events = i ∷ t.events };
  processed-save_processed = λ i j t. refl;
  processed-upsert_projection = λ i u t. refl;
  processed-save_stats = λ i r t. refl;
  processed-save_achievement = λ i r t. refl;
  processed-save_badge = λ i r t. refl;
  user_stats-save_stats = λ u r t. refl;
  user_stats-upsert_projection = λ u p t. refl;
  user_stats-save_achievement = λ u r t. refl;
  user_stats-save_badge = λ u r t. refl;
  user_stats-save_processed = λ u i t. refl;
}
