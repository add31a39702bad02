-- ===== src/Loyalty/Available.antt =====
-- apps/loyalty-service/src/loyalty/loyalty.service.ts: `getAchievementState`, over the rows that the
-- queries have returned. The Map of the groups is the list of its entries in the order of insertion.
pub mod Groups
pub mod Next
use bumpa_achievement_system.Common.{
  String, Option, none, some, List, [], ◌∷◌, ◌++◌, map, if◌then◌else◌, ◌==◌, has, length, find, not,
  ℕ,
}
use bumpa_achievement_system.Loyalty.Unlock.{AchievementConfig, UserAchievement}
use bumpa_achievement_system.Loyalty.Badges.{BadgeConfig, get_badge_state}

pub record Group : Type 0 where
  pub key : String
  pub members : List AchievementConfig

-- grouped.get(groupKey) ?? []
unfoldable pub group_of : String → List Group → List AchievementConfig
group_of k [] = []
group_of k (g ∷ gs) = if g.key == k then g.members else group_of k gs

-- grouped.set(config.groupKey, [...(grouped.get(config.groupKey) ?? []), config])
unfoldable pub add_to_group : AchievementConfig → List Group → List Group
add_to_group c [] = record { key = c.group_key; members = c ∷ [] } ∷ []
add_to_group c (g ∷ gs) =
    let rest = add_to_group c gs in
    if g.key == c.group_key then record g { members = g.members ++ c ∷ [] } ∷ gs else g ∷ rest

unfoldable pub group_configs : List AchievementConfig → List Group → List Group
group_configs [] gs = gs
group_configs (c ∷ cs) gs = group_configs cs (add_to_group c gs)

unfoldable pub first_locked : List String → List AchievementConfig → Option AchievementConfig
first_locked unlocked cs = find (λ (c : AchievementConfig). not (has unlocked c.id)) cs

-- The first member of each group that is still locked; a group that has none is dropped.
abbrev pub with_first : Option AchievementConfig → List AchievementConfig → List AchievementConfig
with_first none rest = rest
with_first (some c) rest = c ∷ rest

unfoldable pub first_of_each : List String → List Group → List AchievementConfig
unfolding first_locked
first_of_each unlocked [] = []
first_of_each unlocked (g ∷ gs) =
    with_first (first_locked unlocked g.members) (first_of_each unlocked gs)

-- A row with its relation.
pub record UnlockedAchievement : Type 0 where
  pub row : UserAchievement
  pub achievement : AchievementConfig

abbrev pub ids_of : List UnlockedAchievement → List String
ids_of rows = map (λ (u : UnlockedAchievement). u.row.achievement_id) rows

pub record AchievementStateResponse : Type 0 where
  pub unlocked_achievements : List String
  pub next_available_achievements : List String
  pub current_badge : String
  pub next_badge : String
  pub remaining_to_unlock_next_badge : ℕ

-- getAchievementState, from the user's rows by the time of their unlock, the active achievements in
-- order, the badges of the user and the active badges in order.
unfoldable pub get_achievement_state :
    List UnlockedAchievement
    → List AchievementConfig
    → List BadgeConfig
    → List BadgeConfig
    → AchievementStateResponse
unfolding group_configs first_of_each
get_achievement_state rows configs unlocked_badges badges =
    let badge_state = get_badge_state unlocked_badges badges (length rows) (ids_of rows) in
    record {
      unlocked_achievements = map (λ (u : UnlockedAchievement). u.achievement.name) rows;
      next_available_achievements =
          map (λ (c : AchievementConfig). c.name)
            (first_of_each (ids_of rows) (group_configs configs []));
      current_badge = badge_state.current_badge;
      next_badge = badge_state.next_badge;
      remaining_to_unlock_next_badge = badge_state.remaining_to_unlock_next_badge;
    }
