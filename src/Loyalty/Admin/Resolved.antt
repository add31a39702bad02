-- ===== src/Loyalty/Admin/Resolved.antt =====
-- No request of the admin API leaves a rule or a badge that refers to an achievement that is not
-- there.
use bumpa_achievement_system.Common.{
  ℕ, ◌≡◌, refl, String, Bool, true, false, not, ◌&&◌, Option, none, some, List, [], ◌∷◌, map, has,
  all, nat_eq, ◌==◌,
}
use bumpa_achievement_system.Loyalty.Unlock.{AchievementConfig}
use bumpa_achievement_system.Loyalty.Badges.{BadgeConfig}
use bumpa_achievement_system.Loyalty.Admin.{
  AdminDatabase, AchievementGroup, UpdateAchievementConfigDto, merge_achievement, moves_achievement,
  moves_badge, moves_group, find_achievement, achievement_ids, insert_achievement,
  create_achievement, move_achievement, update_found, update_achievement, given_rule,
  achievements_exist, collect_achievement_set_ids, create_badge, create_group,
}
use bumpa_achievement_system.Loyalty.Admin.Changes.{
  UpdateBadgeConfigDto, UpdateAchievementGroupDto, merge_badge, merge_group, find_badge, find_group,
  move_group, update_found_group, update_group, move_badge, update_found_badge, given_ids,
  update_badge, AdminRequest, post_group, patch_group, post_achievement, patch_achievement,
  post_badge, patch_badge, handle, handle_all,
}
use bumpa_achievement_system.Loyalty.Admin.Named.{collected-RuleNamesIn, IsIn}
use bumpa_achievement_system.Loyalty.Admin.References.{
  NamesIn, RequiresIn, IsResolved, find_meets, save_group-IsResolved, save_badge-IsResolved,
  save_achievement-IsResolved,
}
use bumpa_achievement_system.Loyalty.Admin.Merged.{
  Keeps, either, either_table, merged-NamesIn, merged-RequiresIn, placed_achievement, placed_badge,
  placed_group,
}

module _ (database : AdminDatabase) where
  open database use {Tables, achievements, badges, groups}

  create_achievement-Keeps :
      (commits : Bool) (c : AchievementConfig) (t : Tables)
      → Keeps database t
      → Keeps database (create_achievement database commits c t).0
  unfolding create_achievement insert_achievement achievements_exist
  create_achievement-Keeps commits c t h =
      either database (all (has (achievement_ids database t)) (collect_achievement_set_ids c.rule))
        _ _
        (λ collected.
          let own = collected-RuleNamesIn (achievement_ids database t) c.rule collected in
          either database (has (achievement_ids database t) c.id) _ _ (λ e. h)
            (λ e.
              either database
                (not (has (map (λ (g : AchievementGroup). g.key) (groups t)) c.group_key)) _ _
                (λ e. h)
                (λ e.
                  either database commits _ _ (λ e. placed_achievement database _ c t own h)
                    (λ e. h))))
        (λ e. h)

  move_achievement-Keeps :
      (old c : AchievementConfig) (t : Tables)
      → NamesIn (achievement_ids database t) c
      → Keeps database t
      → Keeps database (move_achievement database old c t)
  unfolding move_achievement
  move_achievement-Keeps old c t own h =
      either_table database (c.group_key == old.group_key && nat_eq c.sort_order old.sort_order) _ _
        (save_achievement-IsResolved database c t own h)
        (placed_achievement database (moves_achievement c.group_key c.sort_order (some old.id)) c t
          own h)

  update_found-Keeps :
      (commits : Bool) (dto : UpdateAchievementConfigDto) (id : String)
      (o : Option AchievementConfig) (t : Tables)
      → find_achievement database id t ≡ o
      → IsIn (achievement_ids database t) (given_rule database dto.rule)
      → Keeps database t
      → Keeps database (update_found database commits dto o t).0
  unfolding update_found
  update_found-Keeps commits dto id none t found given h = h
  update_found-Keeps commits dto id (some old) t found given h =
      let c = merge_achievement dto old in
      let kept =
        find_meets (λ (x : AchievementConfig). x.id) (NamesIn (achievement_ids database t)) id
          (achievements t) old found h.of_rules in
      either database (not (has (map (λ (g : AchievementGroup). g.key) (groups t)) c.group_key)) _ _
        (λ e. h)
        (λ e.
          either database commits _ _
            (λ e.
              move_achievement-Keeps old c t
                (merged-NamesIn (achievement_ids database t) database dto old given kept) h)
            (λ e. h))

  update_achievement-Keeps :
      (commits : Bool) (id : String) (dto : UpdateAchievementConfigDto) (t : Tables)
      → Keeps database t
      → Keeps database (update_achievement database commits id dto t).0
  unfolding update_achievement achievements_exist
  update_achievement-Keeps commits id dto t h =
      either database (all (has (achievement_ids database t)) (given_rule database dto.rule)) _ _
        (λ given. update_found-Keeps commits dto id (find_achievement database id t) t refl given h)
        (λ e. h)

  create_badge-Keeps :
      (commits : Bool) (b : BadgeConfig) (t : Tables)
      → Keeps database t
      → Keeps database (create_badge database commits b t).0
  unfolding create_badge achievements_exist
  create_badge-Keeps commits b t h =
      let there = all (has (achievement_ids database t)) b.required_achievement_ids in
      either database (not there) _ _ (λ e. h)
        (λ e.
          either database (has (map (λ (x : BadgeConfig). x.id) (badges t)) b.id) _ _ (λ e. h)
            (λ f.
              either database commits _ _ (λ g. placed_badge database _ b t (not_not there e) h)
                (λ g. h)))
    where
      not_not : (x : Bool) → not x ≡ false → x ≡ true
      not_not true e = refl
      not_not false e = cc

  update_found_badge-Keeps :
      (commits : Bool) (dto : UpdateBadgeConfigDto) (id : String) (o : Option BadgeConfig)
      (t : Tables)
      → find_badge database id t ≡ o
      → IsIn (achievement_ids database t) (given_ids database dto.required_achievement_ids)
      → Keeps database t
      → Keeps database (update_found_badge database commits dto o t).0
  unfolding update_found_badge move_badge
  update_found_badge-Keeps commits dto id none t found given h = h
  update_found_badge-Keeps commits dto id (some old) t found given h =
      let b = merge_badge dto old in
      let kept =
        find_meets (λ (x : BadgeConfig). x.id) (RequiresIn (achievement_ids database t)) id
          (badges t) old found h.of_badges in
      let own = merged-RequiresIn (achievement_ids database t) database dto old given kept in
      either database commits _ _
        (λ e.
          either_table database (nat_eq b.sort_order old.sort_order) _ _
            (save_badge-IsResolved database b t own h)
            (placed_badge database (moves_badge b.sort_order (some old.id)) b t own h))
        (λ e. h)

  update_badge-Keeps :
      (commits : Bool) (id : String) (dto : UpdateBadgeConfigDto) (t : Tables)
      → Keeps database t
      → Keeps database (update_badge database commits id dto t).0
  unfolding update_badge achievements_exist
  update_badge-Keeps commits id dto t h =
      either database
        (all (has (achievement_ids database t)) (given_ids database dto.required_achievement_ids)) _
        _
        (λ given. update_found_badge-Keeps commits dto id (find_badge database id t) t refl given h)
        (λ e. h)

  create_group-Keeps :
      (commits : Bool) (key name : String) (sort_order : Option ℕ) (t : Tables)
      → Keeps database t
      → Keeps database (create_group database commits key name sort_order t).0
  unfolding create_group
  create_group-Keeps commits key name sort_order t h =
      either database (has (map (λ (g : AchievementGroup). g.key) (groups t)) key) _ _ (λ e. h)
        (λ e. either database commits _ _ (λ f. placed_group database _ _ t h) (λ f. h))

  update_found_group-Keeps :
      (commits : Bool) (dto : UpdateAchievementGroupDto) (o : Option AchievementGroup) (t : Tables)
      → Keeps database t
      → Keeps database (update_found_group database commits dto o t).0
  unfolding update_found_group move_group
  update_found_group-Keeps commits dto none t h = h
  update_found_group-Keeps commits dto (some old) t h =
      let g = merge_group dto old in
      either database commits _ _
        (λ e.
          either_table database (nat_eq g.sort_order old.sort_order) _ _
            (save_group-IsResolved database g t h)
            (placed_group database (moves_group g.sort_order (some old.key)) g t h))
        (λ e. h)

  handle-Keeps :
      (commits : Bool) (r : AdminRequest) (t : Tables)
      → Keeps database t
      → Keeps database (handle database commits r t).0
  unfolding handle update_group
  handle-Keeps commits (post_group key name sort_order) t h =
      create_group-Keeps commits key name sort_order t h
  handle-Keeps commits (patch_group key dto) t h =
      update_found_group-Keeps commits dto (find_group database key t) t h
  handle-Keeps commits (post_achievement c) t h = create_achievement-Keeps commits c t h
  handle-Keeps commits (patch_achievement id dto) t h = update_achievement-Keeps commits id dto t h
  handle-Keeps commits (post_badge b) t h = create_badge-Keeps commits b t h
  handle-Keeps commits (patch_badge id dto) t h = update_badge-Keeps commits id dto t h

  -- Any requests, however each ends, keep the references: every achievement that a rule names, at any
  -- depth, or that a badge requires, is there.
  pub handle_all-IsResolved :
      (rs : List (Bool × AdminRequest)) (t : Tables)
      → IsResolved database t
      → IsResolved database (handle_all database rs t)
  unfolding handle_all
  handle_all-IsResolved [] t h = h
  handle_all-IsResolved ((commits, r) ∷ rs) t h =
      handle_all-IsResolved rs (handle database commits r t).0 (handle-Keeps commits r t h)
