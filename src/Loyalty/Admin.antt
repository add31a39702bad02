-- ===== src/Loyalty/Admin.antt =====
-- apps/loyalty-service/src/admin/admin-config.service.ts: what administrators change, the achievement
-- groups, the achievements and the badges, each at a position of its list.
mod Tables
pub use Tables.*
pub mod Positions
pub mod Found
pub mod Requests
pub mod Places
pub mod Changes
pub mod Placed
pub mod Unmoved
pub mod InOrder
pub mod References
pub mod Named
pub mod Merged
pub mod Resolved
pub mod Catalog
use bumpa_achievement_system.Common.{
  ℕ, ◌+◌, String, Bool, true, not, ◌&&◌, Option, none, some, List, [], ◌∷◌, ◌++◌, map, has, find,
  all, if◌then◌else◌, leb, nat_eq, ◌==◌,
}
use bumpa_achievement_system.Loyalty.Rules.{
  AchievementRule, count, sum, combination, achievement_set, broken, Rules, nil, cons,
}
use bumpa_achievement_system.Loyalty.Unlock.{AchievementConfig}
use bumpa_achievement_system.Loyalty.Badges.{BadgeConfig}

-- A request is done, or ends with one of the exceptions: 409, 404, 400, or an error of the database.
pub data AdminAnswer : Type 0 where
  done conflict not_found bad_request failed : AdminAnswer

pub record UpdateAchievementConfigDto : Type 0 where
  pub name : Option String
  pub description : Option String
  pub group_key : Option String
  pub sort_order : Option ℕ
  pub rule : Option AchievementRule
  pub image_url : Option String
  pub active : Option Bool

abbrev pub or_keep {ℓ} : {A : Type ℓ} → Option A → A → A
or_keep none a = a
or_keep (some b) a = b

abbrev pub or_keep_optional {ℓ} : {A : Type ℓ} → Option A → Option A → Option A
or_keep_optional none o = o
or_keep_optional (some b) o = some b

-- manager.merge(AchievementConfig, achievement, dto)
abbrev pub merge_achievement : UpdateAchievementConfigDto → AchievementConfig → AchievementConfig
merge_achievement dto c = record c {
  name = or_keep dto.name c.name;
  description = or_keep dto.description c.description;
  group_key = or_keep dto.group_key c.group_key;
  sort_order = or_keep dto.sort_order c.sort_order;
  rule = or_keep dto.rule c.rule;
  image_url = or_keep_optional dto.image_url c.image_url;
  active = or_keep dto.active c.active;
}

-- The `where` of makeRoomForAchievementSortOrder, makeRoomForBadgeSortOrder and
-- makeRoomForGroupSortOrder; an empty identifier excludes nothing.
abbrev pub not_excluded : Option String → String → Bool
not_excluded none id = true
not_excluded (some e) id = if e == "" then true else not (id == e)

abbrev pub moves_achievement : String → ℕ → Option String → AchievementConfig → Bool
moves_achievement group_key target exclude c =
    c.group_key == group_key && (leb target c.sort_order && not_excluded exclude c.id)

abbrev pub moves_badge : ℕ → Option String → BadgeConfig → Bool
moves_badge target exclude b = leb target b.sort_order && not_excluded exclude b.id

abbrev pub moves_group : ℕ → Option String → AchievementGroup → Bool
moves_group target exclude g = leb target g.sort_order && not_excluded exclude g.key

-- collectAchievementSetIds. A stored rule without its array throws; the requests are checked first.
unfoldable mutual
  pub collect_achievement_set_ids : AchievementRule → List String
  collect_achievement_set_ids (count operator value) = []
  collect_achievement_set_ids (sum operator value) = []
  collect_achievement_set_ids (combination rules) = collect_each rules
  collect_achievement_set_ids (achievement_set ids least) = ids
  collect_achievement_set_ids broken = []

  pub collect_each : Rules → List String
  collect_each nil = []
  collect_each (cons rule rules) = collect_achievement_set_ids rule ++ collect_each rules

-- assertAchievementsExist, from the identifiers of the stored achievements: whether it returns.
unfoldable pub achievements_exist : List String → List String → Bool
achievements_exist existing ids = all (has existing) ids

module _ (database : AdminDatabase) where
  open database use {
    Tables, groups, achievements, badges, increment_groups, increment_achievements,
    increment_badges, save_group, save_achievement, save_badge,
  }

  abbrev pub achievement_ids : Tables → List String
  achievement_ids t = map (λ (c : AchievementConfig). c.id) (achievements t)

  abbrev pub find_achievement : String → Tables → Option AchievementConfig
  find_achievement id t = find (λ (c : AchievementConfig). c.id == id) (achievements t)

  -- The transaction of createAchievement. The foreign key refuses an unknown group; `commits` tells
  -- whether the other constraints let it commit.
  pub insert_achievement : Bool → AchievementConfig → Tables → Tables × AdminAnswer
  insert_achievement commits c t =
      if has (achievement_ids t) c.id
      then (t, conflict)
      else if not (has (map (λ (g : AchievementGroup). g.key) (groups t)) c.group_key)
      then (t, bad_request)
      else if commits
      then (
        save_achievement c
            (increment_achievements (moves_achievement c.group_key c.sort_order none) t),
        done,
      )
      else (t, failed)

  -- createAchievement
  unfoldable pub create_achievement : Bool → AchievementConfig → Tables → Tables × AdminAnswer
  unfolding insert_achievement
  create_achievement commits c t =
      if achievements_exist (achievement_ids t) (collect_achievement_set_ids c.rule)
      then insert_achievement commits c t
      else (t, bad_request)

  -- makeRoom, when the position changes, and `save` of the merged row.
  pub move_achievement : AchievementConfig → AchievementConfig → Tables → Tables
  move_achievement old c t =
      if c.group_key == old.group_key && nat_eq c.sort_order old.sort_order
      then save_achievement c t
      else save_achievement c
          (increment_achievements (moves_achievement c.group_key c.sort_order (some old.id)) t)

  update_found :
      Bool → UpdateAchievementConfigDto → Option AchievementConfig → Tables → Tables × AdminAnswer
  unfolding move_achievement
  update_found commits dto none t = (t, not_found)
  update_found commits dto (some old) t =
      let c = merge_achievement dto old in
      if not (has (map (λ (g : AchievementGroup). g.key) (groups t)) c.group_key)
      then (t, bad_request)
      else if commits
      then (move_achievement old c t, done)
      else (t, failed)

  abbrev pub given_rule : Option AchievementRule → List String
  given_rule none = []
  given_rule (some rule) = collect_achievement_set_ids rule

  -- updateAchievement
  unfoldable pub update_achievement :
      Bool → String → UpdateAchievementConfigDto → Tables → Tables × AdminAnswer
  unfolding update_found
  update_achievement commits id dto t =
      if achievements_exist (achievement_ids t) (given_rule dto.rule)
      then update_found commits dto (find_achievement id t) t
      else (t, bad_request)

  -- createBadge
  unfoldable pub create_badge : Bool → BadgeConfig → Tables → Tables × AdminAnswer
  create_badge commits b t =
      if not (achievements_exist (achievement_ids t) b.required_achievement_ids)
      then (t, bad_request)
      else if has (map (λ (c : BadgeConfig). c.id) (badges t)) b.id
      then (t, conflict)
      else if commits
      then (save_badge b (increment_badges (moves_badge b.sort_order none) t), done)
      else (t, failed)

  -- nextGroupSortOrder
  pub next_group_sort_order : List AchievementGroup → ℕ
  next_group_sort_order [] = 1
  next_group_sort_order (g ∷ gs) =
      let rest = next_group_sort_order gs in
      if leb rest g.sort_order then g.sort_order + 1 else rest

  -- createGroup
  unfoldable pub create_group :
      Bool → (key name : String) → Option ℕ → Tables → Tables × AdminAnswer
  unfolding next_group_sort_order
  create_group commits key name sort_order t =
      let target = or_keep sort_order (next_group_sort_order (groups t)) in
      if has (map (λ (g : AchievementGroup). g.key) (groups t)) key
      then (t, conflict)
      else if commits
      then (
        save_group (record { key = key; name = name; sort_order = target })
            (increment_groups (moves_group target none) t),
        done,
      )
      else (t, failed)
