-- ===== src/Loyalty/Admin/Changes.antt =====
-- apps/loyalty-service/src/admin/admin-config.service.ts: `updateGroup` and `updateBadge`, and
-- admin-config.controller.ts: which method answers which request.
use bumpa_achievement_system.Common.{
  ℕ, String, Bool, Option, none, some, List, [], ◌∷◌, find, if◌then◌else◌, nat_eq, ◌==◌,
}
use bumpa_achievement_system.Loyalty.Unlock.{AchievementConfig}
use bumpa_achievement_system.Loyalty.Badges.{BadgeConfig}
use bumpa_achievement_system.Loyalty.Admin.{
  AdminDatabase, AchievementGroup, AdminAnswer, done, not_found, bad_request, failed,
  UpdateAchievementConfigDto, or_keep, or_keep_optional, moves_badge, moves_group,
  achievements_exist, achievement_ids, create_achievement, update_achievement, create_badge,
  create_group,
}

pub record UpdateAchievementGroupDto : Type 0 where
  pub name : Option String
  pub sort_order : Option ℕ

pub record UpdateBadgeConfigDto : Type 0 where
  pub name : Option String
  pub description : Option String
  pub sort_order : Option ℕ
  pub required_achievement_count : Option ℕ
  pub required_achievement_ids : Option (List String)
  pub reward_amount_kobo : Option ℕ
  pub reward_currency : Option String
  pub image_url : Option String
  pub active : Option Bool

-- manager.merge(AchievementGroup, group, dto)
abbrev pub merge_group : UpdateAchievementGroupDto → AchievementGroup → AchievementGroup
merge_group dto g = record g {
  name = or_keep dto.name g.name;
  sort_order = or_keep dto.sort_order g.sort_order;
}

-- manager.merge(BadgeConfig, badge, dto)
abbrev pub merge_badge : UpdateBadgeConfigDto → BadgeConfig → BadgeConfig
merge_badge dto b = record b {
  name = or_keep dto.name b.name;
  description = or_keep dto.description b.description;
  sort_order = or_keep dto.sort_order b.sort_order;
  required_achievement_count = or_keep dto.required_achievement_count b.required_achievement_count;
  required_achievement_ids = or_keep dto.required_achievement_ids b.required_achievement_ids;
  reward_amount_kobo = or_keep dto.reward_amount_kobo b.reward_amount_kobo;
  reward_currency = or_keep dto.reward_currency b.reward_currency;
  image_url = or_keep_optional dto.image_url b.image_url;
  active = or_keep dto.active b.active;
}

module _ (database : AdminDatabase) where
  open database use {
    Tables, groups, badges, increment_groups, increment_badges, save_group, save_badge,
  }

  abbrev pub find_group : String → Tables → Option AchievementGroup
  find_group key t = find (λ (g : AchievementGroup). g.key == key) (groups t)

  abbrev pub find_badge : String → Tables → Option BadgeConfig
  find_badge id t = find (λ (b : BadgeConfig). b.id == id) (badges t)

  unfoldable pub move_group : AchievementGroup → AchievementGroup → Tables → Tables
  move_group old g t =
      if nat_eq g.sort_order old.sort_order
      then save_group g t
      else save_group g (increment_groups (moves_group g.sort_order (some old.key)) t)

  unfoldable pub update_found_group :
      Bool → UpdateAchievementGroupDto → Option AchievementGroup → Tables → Tables × AdminAnswer
  unfolding move_group
  update_found_group commits dto none t = (t, not_found)
  update_found_group commits dto (some old) t =
      if commits then (move_group old (merge_group dto old) t, done) else (t, failed)

  -- updateGroup; `commits` tells whether the database lets the transaction commit.
  unfoldable pub update_group :
      Bool → String → UpdateAchievementGroupDto → Tables → Tables × AdminAnswer
  unfolding update_found_group
  update_group commits key dto t = update_found_group commits dto (find_group key t) t

  unfoldable pub move_badge : BadgeConfig → BadgeConfig → Tables → Tables
  move_badge old b t =
      if nat_eq b.sort_order old.sort_order
      then save_badge b t
      else save_badge b (increment_badges (moves_badge b.sort_order (some old.id)) t)

  unfoldable pub update_found_badge :
      Bool → UpdateBadgeConfigDto → Option BadgeConfig → Tables → Tables × AdminAnswer
  unfolding move_badge
  update_found_badge commits dto none t = (t, not_found)
  update_found_badge commits dto (some old) t =
      if commits then (move_badge old (merge_badge dto old) t, done) else (t, failed)

  -- `dto.requiredAchievementIds !== undefined`; an empty list returns at once.
  abbrev pub given_ids : Option (List String) → List String
  given_ids none = []
  given_ids (some ids) = ids

  -- updateBadge
  unfoldable pub update_badge : Bool → String → UpdateBadgeConfigDto → Tables → Tables × AdminAnswer
  unfolding update_found_badge
  update_badge commits id dto t =
      if achievements_exist (achievement_ids database t) (given_ids dto.required_achievement_ids)
      then update_found_badge commits dto (find_badge id t) t
      else (t, bad_request)

pub data AdminRequest : Type 0 where
  post_group : (key name : String) → Option ℕ → AdminRequest
  patch_group : String → UpdateAchievementGroupDto → AdminRequest
  post_achievement : AchievementConfig → AdminRequest
  patch_achievement : String → UpdateAchievementConfigDto → AdminRequest
  post_badge : BadgeConfig → AdminRequest
  patch_badge : String → UpdateBadgeConfigDto → AdminRequest

module _ (database : AdminDatabase) where
  open database use {Tables}

  unfoldable pub handle : Bool → AdminRequest → Tables → Tables × AdminAnswer
  handle commits (post_group key name sort_order) t =
      create_group database commits key name sort_order t
  handle commits (patch_group key dto) t = update_group database commits key dto t
  handle commits (post_achievement c) t = create_achievement database commits c t
  handle commits (patch_achievement id dto) t = update_achievement database commits id dto t
  handle commits (post_badge b) t = create_badge database commits b t
  handle commits (patch_badge id dto) t = update_badge database commits id dto t

  -- Requests one after the other, each with whether the database lets it commit.
  unfoldable pub handle_all : List (Bool × AdminRequest) → Tables → Tables
  handle_all [] t = t
  handle_all ((commits, r) ∷ rs) t = handle_all rs (handle commits r t).0
