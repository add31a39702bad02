-- ===== src/Loyalty/Admin/Merged.antt =====
-- Rows that are merged and saved after room was made for them refer to what is there.
use bumpa_achievement_system.Common.{
  ◌≡◌, refl, String, Bool, true, false, Option, none, some, List, if◌then◌else◌,
}
use bumpa_achievement_system.Loyalty.Rules.{AchievementRule}
use bumpa_achievement_system.Loyalty.Unlock.{AchievementConfig}
use bumpa_achievement_system.Loyalty.Badges.{BadgeConfig}
use bumpa_achievement_system.Loyalty.Admin.{
  AdminDatabase, AchievementGroup, AdminAnswer, UpdateAchievementConfigDto, merge_achievement,
  achievement_ids, given_rule,
}
use bumpa_achievement_system.Loyalty.Admin.Changes.{UpdateBadgeConfigDto, merge_badge, given_ids}
use bumpa_achievement_system.Loyalty.Admin.Named.{collected-RuleNamesIn, IsIn}
use bumpa_achievement_system.Loyalty.Admin.References.{
  NamesIn, RequiresIn, IsResolved, save_group-IsResolved, increment_groups-IsResolved,
  save_badge-IsResolved, increment_badges-IsResolved, increment_achievements-IsResolved,
  increment_achievements_ids, save_achievement-IsResolved,
}

-- The rule that a merged row has is the given one or the old one; the required achievements likewise.
pub merged-NamesIn :
    (ids : List String) (database : AdminDatabase) (dto : UpdateAchievementConfigDto)
    (old : AchievementConfig)
    → IsIn ids (given_rule database dto.rule)
    → NamesIn ids old
    → NamesIn ids (merge_achievement dto old)
merged-NamesIn ids database dto old given kept = by_rule dto.rule given
  where
    by_rule :
        (o : Option AchievementRule)
        → IsIn ids (given_rule database o)
        → NamesIn ids (merge_achievement (record dto { rule = o }) old)
    by_rule none g = kept
    by_rule (some rule) g = collected-RuleNamesIn ids rule g

pub merged-RequiresIn :
    (ids : List String) (database : AdminDatabase) (dto : UpdateBadgeConfigDto) (old : BadgeConfig)
    → IsIn ids (given_ids database dto.required_achievement_ids)
    → RequiresIn ids old
    → RequiresIn ids (merge_badge dto old)
merged-RequiresIn ids database dto old given kept = by_ids dto.required_achievement_ids given
  where
    by_ids :
        (o : Option (List String))
        → IsIn ids (given_ids database o)
        → RequiresIn ids (merge_badge (record dto { required_achievement_ids = o }) old)
    by_ids none g = kept
    by_ids (some l) g = g

module _ (database : AdminDatabase) where
  open database use {Tables, achievements, badges, groups}

  abbrev pub Keeps : Tables → Type 0
  Keeps t = IsResolved database t

  pub either :
      (b : Bool) (x y : Tables × AdminAnswer)
      → (b ≡ true → Keeps x.0)
      → (b ≡ false → Keeps y.0)
      → Keeps (if b then x else y).0
  either true x y f g = f refl
  either false x y f g = g refl

  pub either_table : (b : Bool) (x y : Tables) → Keeps x → Keeps y → Keeps (if b then x else y)
  either_table true x y h k = h
  either_table false x y h k = k

  -- A row is saved after room was made for it.
  pub placed_achievement :
      (p : AchievementConfig → Bool) (c : AchievementConfig) (t : Tables)
      → NamesIn (achievement_ids database t) c
      → Keeps t
      → Keeps (database.save_achievement c (database.increment_achievements p t))
  placed_achievement p c t own h =
      save_achievement-IsResolved database c (database.increment_achievements p t)
        (rw (increment_achievements_ids database p t) own)
        (increment_achievements-IsResolved database p t h)

  pub placed_badge :
      (p : BadgeConfig → Bool) (b : BadgeConfig) (t : Tables)
      → RequiresIn (achievement_ids database t) b
      → Keeps t
      → Keeps (database.save_badge b (database.increment_badges p t))
  placed_badge p b t own h =
      save_badge-IsResolved database b (database.increment_badges p t)
        (rw (database.achievements-increment_badges p t) own)
        (increment_badges-IsResolved database p t h)

  pub placed_group :
      (p : AchievementGroup → Bool) (g : AchievementGroup) (t : Tables)
      → Keeps t
      → Keeps (database.save_group g (database.increment_groups p t))
  placed_group p g t h =
      save_group-IsResolved database g (database.increment_groups p t)
        (increment_groups-IsResolved database p t h)
