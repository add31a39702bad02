-- ===== src/Loyalty/Seed.antt =====
-- apps/loyalty-service/src/config/loyalty-config-seeder.service.ts: `onModuleInit` inserts the
-- defaults that are missing.
pub mod Defaults
pub mod Missing
pub mod Steps
pub mod Seeded
use bumpa_achievement_system.Common.{
  ℕ, ◌≡◌, String, Bool, true, not, Option, none, some, List, [], ◌∷◌, ◌++◌, map, has, filter, All,
  NoRepeat,
}
use bumpa_achievement_system.Loyalty.Unlock.{AchievementConfig}
use bumpa_achievement_system.Loyalty.Badges.{BadgeConfig}
use bumpa_achievement_system.Loyalty.Admin.{AdminDatabase, AchievementGroup, achievement_ids}
use Defaults.{
  AchievementGroupSeed, AchievementSeed, BadgeSeed, default_achievement_groups,
  default_achievements, default_badges,
}

abbrev pub group_id : AchievementGroup → String
group_id g = g.key

abbrev pub achievement_id : AchievementConfig → String
achievement_id c = c.id

abbrev pub badge_id : BadgeConfig → String
badge_id b = b.id

-- The tables of the admin API with the statement INSERT, which adds rows whose keys are new, and
-- achievements whose group is there; it leaves the other tables.
pub record SeedDatabase : Type 1 where
  pub database : AdminDatabase
  pub insert_groups : List AchievementGroup → database.Tables → database.Tables
  pub insert_achievements : List AchievementConfig → database.Tables → database.Tables
  pub insert_badges : List BadgeConfig → database.Tables → database.Tables
  pub groups-insert_groups :
      (rows : List AchievementGroup) (t : database.Tables)
      → NoRepeat (map group_id (database.groups t ++ rows))
      → database.groups (insert_groups rows t) ≡ database.groups t ++ rows
  pub achievements-insert_achievements :
      (rows : List AchievementConfig) (t : database.Tables)
      → NoRepeat (map achievement_id (database.achievements t ++ rows))
      → All
          (λ (c : AchievementConfig). has (map group_id (database.groups t)) c.group_key ≡ true)
          rows
      → database.achievements (insert_achievements rows t) ≡ database.achievements t ++ rows
  pub badges-insert_badges :
      (rows : List BadgeConfig) (t : database.Tables)
      → NoRepeat (map badge_id (database.badges t ++ rows))
      → database.badges (insert_badges rows t) ≡ database.badges t ++ rows
  pub achievements-insert_groups :
      (rows : List AchievementGroup) (t : database.Tables)
      → database.achievements (insert_groups rows t) ≡ database.achievements t
  pub badges-insert_groups :
      (rows : List AchievementGroup) (t : database.Tables)
      → database.badges (insert_groups rows t) ≡ database.badges t
  pub groups-insert_achievements :
      (rows : List AchievementConfig) (t : database.Tables)
      → database.groups (insert_achievements rows t) ≡ database.groups t
  pub badges-insert_achievements :
      (rows : List AchievementConfig) (t : database.Tables)
      → database.badges (insert_achievements rows t) ≡ database.badges t
  pub groups-insert_badges :
      (rows : List BadgeConfig) (t : database.Tables)
      → database.groups (insert_badges rows t) ≡ database.groups t
  pub achievements-insert_badges :
      (rows : List BadgeConfig) (t : database.Tables)
      → database.achievements (insert_badges rows t) ≡ database.achievements t

-- The defaults whose identifier is not one of the set.
abbrev pub missing : {D : Type 0} → (D → String) → List String → List D → List D
missing id existing = filter (λ d. not (has existing (id d)))

-- if (rows.length > 0) await repository.insert(rows)
abbrev pub insert_any : {A T : Type 0} → (List A → T → T) → List A → T → T
insert_any insert [] t = t
insert_any insert (a ∷ rows) t = insert (a ∷ rows) t

abbrev or_default {ℓ} : {A : Type ℓ} → Option A → A → A
or_default none a = a
or_default (some b) a = b

abbrev pub group_seed_id : AchievementGroupSeed → String
group_seed_id d = d.key

abbrev pub seed_id : AchievementSeed → String
seed_id d = d.id

abbrev pub badge_seed_id : BadgeSeed → String
badge_seed_id d = d.id

abbrev pub new_group : AchievementGroupSeed → AchievementGroup
new_group d = record { key = d.key; name = d.name; sort_order = d.sort_order }

-- The column `active` has the default true.
abbrev pub new_achievement : AchievementSeed → AchievementConfig
new_achievement d = record {
  id = d.id;
  name = d.name;
  description = d.description;
  group_key = d.group_key;
  sort_order = d.sort_order;
  rule = d.rule;
  image_url = d.image_url;
  active = true;
}

abbrev pub new_badge : BadgeSeed → BadgeConfig
new_badge d = record {
  id = d.id;
  name = d.name;
  description = d.description;
  sort_order = d.sort_order;
  required_achievement_count = d.required_achievement_count;
  required_achievement_ids = or_default d.required_achievement_ids [];
  reward_amount_kobo = or_default d.reward_amount_kobo 30000;
  reward_currency = or_default d.reward_currency "NGN";
  image_url = d.image_url;
  active = true;
}

module _ (seeds : SeedDatabase) where
  open seeds use {database, insert_groups, insert_achievements, insert_badges}

  pub missing_groups : database.Tables → List AchievementGroup
  missing_groups t =
      map new_group
        (missing group_seed_id (map group_id (database.groups t)) default_achievement_groups)

  pub missing_achievements : database.Tables → List AchievementConfig
  missing_achievements t =
      map new_achievement (missing seed_id (achievement_ids database t) default_achievements)

  pub missing_badges : database.Tables → List BadgeConfig
  missing_badges t =
      map new_badge (missing badge_seed_id (map badge_id (database.badges t)) default_badges)

  -- Groups first: achievements refer to them.
  unfoldable pub on_module_init : database.Tables → database.Tables
  on_module_init t =
      let t' = insert_any insert_groups (missing_groups t) t in
      let t'' = insert_any insert_achievements (missing_achievements t') t' in
      insert_any insert_badges (missing_badges t'') t''
