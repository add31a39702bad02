-- ===== src/Loyalty/Admin/Unmoved.antt =====
-- The requests on the achievements leave the badges and the groups.
use bumpa_achievement_system.Common.{
  ◌≡◌, refl, ◌∙◌, String, Bool, not, Option, none, some, map, has, nat_eq, ◌&&◌, ◌==◌, Bool-cases,
  inl, inr,
}
use bumpa_achievement_system.Loyalty.Unlock.{AchievementConfig}
use bumpa_achievement_system.Loyalty.Admin.{
  AdminDatabase, create_achievement, update_achievement, update_found, move_achievement,
  UpdateAchievementConfigDto, find_achievement, merge_achievement, given_rule,
  collect_achievement_set_ids, achievement_ids, achievements_exist,
}
use bumpa_achievement_system.Loyalty.Admin.Placed.{group_id, either}

module _ (database : AdminDatabase) where
  open database use {Tables, groups, achievements, badges}

  -- Statements on the achievements alone.
  pub record Same (t t' : Tables) : Type 0 where
    pub badges_same : badges t' ≡ badges t
    pub groups_same : groups t' ≡ groups t

  same : (t : Tables) → Same t t
  same t = record { badges_same = refl; groups_same = refl }

  placed-Same :
      (c : AchievementConfig) (p : AchievementConfig → Bool) (t : Tables)
      → Same t (database.save_achievement c (database.increment_achievements p t))
  placed-Same c p t = record {
    badges_same =
        database.badges-save_achievement c (database.increment_achievements p t)
        ∙ database.badges-increment_achievements p t;
    groups_same =
        database.groups-save_achievement c (database.increment_achievements p t)
        ∙ database.groups-increment_achievements p t;
  }

  pub create_achievement-Same :
      (commits : Bool) (c : AchievementConfig) (t : Tables)
      → Same t (create_achievement database commits c t).0
  unfolding create_achievement
  create_achievement-Same commits c t =
      either (Same t)
        (achievements_exist (achievement_ids database t) (collect_achievement_set_ids c.rule)) _ _
        (either (Same t) (has (achievement_ids database t) c.id) _ _ (same t) (
          either (Same t) (not (has (map group_id (groups t)) c.group_key)) _ _ (same t)
            (either (Same t) commits _ _ (placed-Same c _ t) (same t))))
        (same t)

  move_achievement-Same :
      (old c : AchievementConfig) (t : Tables) → Same t (move_achievement database old c t)
  unfolding move_achievement
  move_achievement-Same old c t =
      elim (Bool-cases (c.group_key == old.group_key && nat_eq c.sort_order old.sort_order)) [
        | inl stays ↦ rw stays (record {
          badges_same = database.badges-save_achievement c t;
          groups_same = database.groups-save_achievement c t;
        })
        | inr moved ↦ rw moved (placed-Same c _ t)
      ]

  update_found-Same :
      (commits : Bool) (dto : UpdateAchievementConfigDto) (o : Option AchievementConfig)
      (t : Tables)
      → Same t (update_found database commits dto o t).0
  unfolding update_found
  update_found-Same commits dto none t = same t
  update_found-Same commits dto (some old) t =
      let c = merge_achievement dto old in
      either (Same t) (not (has (map group_id (groups t)) c.group_key)) _ _ (same t)
        (either (Same t) commits _ _ (move_achievement-Same old c t) (same t))

  pub update_achievement-Same :
      (commits : Bool) (id : String) (dto : UpdateAchievementConfigDto) (t : Tables)
      → Same t (update_achievement database commits id dto t).0
  unfolding update_achievement
  update_achievement-Same commits id dto t =
      either (Same t)
        (achievements_exist (achievement_ids database t) (given_rule database dto.rule)) _ _
        (update_found-Same commits dto (find_achievement database id t) t) (same t)
