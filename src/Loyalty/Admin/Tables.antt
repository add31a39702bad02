-- ===== src/Loyalty/Admin/Tables.antt =====
-- apps/loyalty-service/src/entities/achievement-group.entity.ts, and the tables that the admin API
-- changes: TypeORM over PostgreSQL, which is not in the repository. A table is seen as the list of
-- its rows; what the code relies on is stated as laws.
use bumpa_achievement_system.Common.{
  ℕ, ◌+◌, ◌≡◌, String, Bool, List, [], ◌∷◌, map, if◌then◌else◌, ◌==◌, NoRepeat,
}
use bumpa_achievement_system.Loyalty.Unlock.{AchievementConfig}
use bumpa_achievement_system.Loyalty.Badges.{BadgeConfig}

pub record AchievementGroup : Type 0 where
  pub key : String
  pub name : String
  pub sort_order : ℕ

-- `save` replaces the row of the identifier, or adds one.
module _ {A : Type 0} (id : A → String) where
  abbrev pub put : A → List A → List A
  put a [] = a ∷ []
  put a (x ∷ xs) = let rest = put a xs in if id x == id a then a ∷ xs else x ∷ rest

abbrev pub next_position : AchievementConfig → AchievementConfig
next_position c = record c { sort_order = c.sort_order + 1 }

abbrev pub next_badge_position : BadgeConfig → BadgeConfig
next_badge_position b = record b { sort_order = b.sort_order + 1 }

abbrev pub next_group_position : AchievementGroup → AchievementGroup
next_group_position g = record g { sort_order = g.sort_order + 1 }

-- increment(…, where, 'sortOrder', 1)
abbrev pub incremented : {A : Type 0} → (A → Bool) → (A → A) → List A → List A
incremented p f = map (λ a. if p a then f a else a)

pub record AdminDatabase : Type 1 where
  pub Tables : Type 0
  pub groups : Tables → List AchievementGroup
  pub achievements : Tables → List AchievementConfig
  pub badges : Tables → List BadgeConfig
  pub increment_groups : (AchievementGroup → Bool) → Tables → Tables
  pub increment_achievements : (AchievementConfig → Bool) → Tables → Tables
  pub increment_badges : (BadgeConfig → Bool) → Tables → Tables
  pub save_group : AchievementGroup → Tables → Tables
  pub save_achievement : AchievementConfig → Tables → Tables
  pub save_badge : BadgeConfig → Tables → Tables
  -- The identifier is the primary key.
  pub achievements-once :
      (t : Tables) → NoRepeat (map (λ (c : AchievementConfig). c.id) (achievements t))
  pub badges-once : (t : Tables) → NoRepeat (map (λ (b : BadgeConfig). b.id) (badges t))
  pub groups-once : (t : Tables) → NoRepeat (map (λ (g : AchievementGroup). g.key) (groups t))
  pub achievements-increment_achievements :
      (p : AchievementConfig → Bool) (t : Tables)
      → achievements (increment_achievements p t) ≡ incremented p next_position (achievements t)
  pub achievements-save_achievement :
      (c : AchievementConfig) (t : Tables)
      → achievements (save_achievement c t)
        ≡ put (λ (x : AchievementConfig). x.id) c (achievements t)
  pub badges-increment_badges :
      (p : BadgeConfig → Bool) (t : Tables)
      → badges (increment_badges p t) ≡ incremented p next_badge_position (badges t)
  pub badges-save_badge :
      (b : BadgeConfig) (t : Tables)
      → badges (save_badge b t) ≡ put (λ (x : BadgeConfig). x.id) b (badges t)
  pub groups-increment_groups :
      (p : AchievementGroup → Bool) (t : Tables)
      → groups (increment_groups p t) ≡ incremented p next_group_position (groups t)
  pub groups-save_group :
      (g : AchievementGroup) (t : Tables)
      → groups (save_group g t) ≡ put (λ (x : AchievementGroup). x.key) g (groups t)
  -- A statement on one table leaves the others.
  pub groups-save_achievement :
      (r : AchievementConfig) (t : Tables) → groups (save_achievement r t) ≡ groups t
  pub groups-increment_achievements :
      (p : AchievementConfig → Bool) (t : Tables) → groups (increment_achievements p t) ≡ groups t
  pub groups-save_badge : (r : BadgeConfig) (t : Tables) → groups (save_badge r t) ≡ groups t
  pub groups-increment_badges :
      (p : BadgeConfig → Bool) (t : Tables) → groups (increment_badges p t) ≡ groups t
  pub achievements-save_group :
      (r : AchievementGroup) (t : Tables) → achievements (save_group r t) ≡ achievements t
  pub achievements-increment_groups :
      (p : AchievementGroup → Bool) (t : Tables)
      → achievements (increment_groups p t) ≡ achievements t
  pub achievements-save_badge :
      (r : BadgeConfig) (t : Tables) → achievements (save_badge r t) ≡ achievements t
  pub achievements-increment_badges :
      (p : BadgeConfig → Bool) (t : Tables) → achievements (increment_badges p t) ≡ achievements t
  pub badges-save_group : (r : AchievementGroup) (t : Tables) → badges (save_group r t) ≡ badges t
  pub badges-increment_groups :
      (p : AchievementGroup → Bool) (t : Tables) → badges (increment_groups p t) ≡ badges t
  pub badges-save_achievement :
      (r : AchievementConfig) (t : Tables) → badges (save_achievement r t) ≡ badges t
  pub badges-increment_achievements :
      (p : AchievementConfig → Bool) (t : Tables) → badges (increment_achievements p t) ≡ badges t
