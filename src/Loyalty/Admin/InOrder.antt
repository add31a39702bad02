-- ===== src/Loyalty/Admin/InOrder.antt =====
-- What any sequence of requests keeps: each list in an order of its own.
use mathlib.Core.Path.{subst}
use bumpa_achievement_system.Common.{
  ℕ, ◌≡◌, refl, sym, ◌∙◌, ap, String, Bool, not, Option, none, some, List, [], ◌∷◌, map, has,
  nat_eq, arith, Bool-cases, inl, inr,
}
use bumpa_achievement_system.Loyalty.Badges.{BadgeConfig}
use bumpa_achievement_system.Loyalty.Admin.{
  AdminDatabase, AchievementGroup, create_badge, create_group, or_keep, next_group_sort_order,
  achievement_ids, achievements_exist,
}
use bumpa_achievement_system.Loyalty.Admin.Positions.{AreApart}
use bumpa_achievement_system.Loyalty.Admin.Found.{excluded_other}
use bumpa_achievement_system.Loyalty.Admin.Requests.{
  create_achievement-AreApart, update_achievement-AreApart,
}
use bumpa_achievement_system.Loyalty.Admin.Places.{HaveOwnPlaces, replaced_own}
use bumpa_achievement_system.Loyalty.Admin.Changes.{
  UpdateBadgeConfigDto, UpdateAchievementGroupDto, merge_badge, merge_group, given_ids, find_badge,
  find_group, move_badge, move_group, update_found_badge, update_found_group, update_badge,
  update_group, AdminRequest, post_group, patch_group, post_achievement, patch_achievement,
  post_badge, patch_badge, handle, handle_all,
}
use bumpa_achievement_system.Loyalty.Admin.Placed.{
  badge_id, badge_at, group_id, group_at, either, find_own, IsInOrder, of_badges_only,
  of_groups_only, placed_badge, placed_group,
}
use bumpa_achievement_system.Loyalty.Admin.Unmoved.{
  Same, create_achievement-Same, update_achievement-Same,
}

module _ (database : AdminDatabase) where
  open database use {Tables, groups, achievements, badges}

  create_badge-IsInOrder :
      (commits : Bool) (b : BadgeConfig) (t : Tables)
      → IsInOrder database t
      → IsInOrder database (create_badge database commits b t).0
  unfolding create_badge
  create_badge-IsInOrder commits b t x =
      either (IsInOrder database)
        (not (achievements_exist (achievement_ids database t) b.required_achievement_ids)) _ _ x
        (either (IsInOrder database) (has (map badge_id (badges t)) b.id) _ _ x (
          either (IsInOrder database) commits _ _ (placed_badge database none b t (λ c o. refl) x)
            x))

  create_group-IsInOrder :
      (commits : Bool) (key name : String) (order : Option ℕ) (t : Tables)
      → IsInOrder database t
      → IsInOrder database (create_group database commits key name order t).0
  unfolding create_group
  create_group-IsInOrder commits key name order t x =
      let g : AchievementGroup = record {
        key = key;
        name = name;
        sort_order = or_keep order (next_group_sort_order database (groups t));
      } in
      either (IsInOrder database) (has (map group_id (groups t)) key) _ _ x
        (either (IsInOrder database) commits _ _ (placed_group database none g t (λ c o. refl) x) x)

  move_badge-IsInOrder :
      (old b : BadgeConfig) (t : Tables)
      → b.id ≡ old.id
      → find_badge database b.id t ≡ some old
      → IsInOrder database t
      → IsInOrder database (move_badge database old b t)
  unfolding move_badge
  move_badge-IsInOrder old b t same found x =
      elim (Bool-cases (nat_eq b.sort_order old.sort_order)) [
        | inl stays ↦
            let e : old.sort_order ≡ b.sort_order = ground arith in
            rw stays (
              of_badges_only database t _ (database.achievements-save_badge b t)
                (database.groups-save_badge b t)
                (subst (HaveOwnPlaces badge_id badge_at) (sym (database.badges-save_badge b t))
                  (replaced_own badge_id badge_at b old e (badges t) found x.of_badges))
                x)
        | inr moved ↦ rw moved (
            placed_badge database (some old.id) b t (λ c o. excluded_other c.id b.id old.id same o)
              x)
      ]

  move_group-IsInOrder :
      (old g : AchievementGroup) (t : Tables)
      → g.key ≡ old.key
      → find_group database g.key t ≡ some old
      → IsInOrder database t
      → IsInOrder database (move_group database old g t)
  unfolding move_group
  move_group-IsInOrder old g t same found x =
      elim (Bool-cases (nat_eq g.sort_order old.sort_order)) [
        | inl stays ↦
            let e : old.sort_order ≡ g.sort_order = ground arith in
            rw stays (
              of_groups_only database t _ (database.achievements-save_group g t)
                (database.badges-save_group g t)
                (subst (HaveOwnPlaces group_id group_at) (sym (database.groups-save_group g t))
                  (replaced_own group_id group_at g old e (groups t) found x.of_groups))
                x)
        | inr moved ↦ rw moved (
            placed_group database (some old.key) g t
              (λ c o. excluded_other c.key g.key old.key same o) x)
      ]

  update_badge-IsInOrder :
      (commits : Bool) (id : String) (dto : UpdateBadgeConfigDto) (o : Option BadgeConfig)
      (t : Tables)
      → find_badge database id t ≡ o
      → IsInOrder database t
      → IsInOrder database (update_found_badge database commits dto o t).0
  unfolding update_found_badge
  update_badge-IsInOrder commits id dto none t found x = x
  update_badge-IsInOrder commits id dto (some old) t found x =
      let own = find_own badge_id id (badges t) old found in
      either (IsInOrder database) commits _ _
        (move_badge-IsInOrder old (merge_badge dto old) t refl
          (ap (λ i. find_badge database i t) own ∙ found) x)
        x

  update_group-IsInOrder :
      (commits : Bool) (key : String) (dto : UpdateAchievementGroupDto)
      (o : Option AchievementGroup) (t : Tables)
      → find_group database key t ≡ o
      → IsInOrder database t
      → IsInOrder database (update_found_group database commits dto o t).0
  unfolding update_found_group
  update_group-IsInOrder commits key dto none t found x = x
  update_group-IsInOrder commits key dto (some old) t found x =
      let own = find_own group_id key (groups t) old found in
      either (IsInOrder database) commits _ _
        (move_group-IsInOrder old (merge_group dto old) t refl
          (ap (λ i. find_group database i t) own ∙ found) x)
        x

  of_achievements_only :
      (t t' : Tables)
      → Same database t t'
      → AreApart (achievements t')
      → IsInOrder database t
      → IsInOrder database t'
  of_achievements_only t t' s a x = record {
    in_groups = a;
    of_badges = subst (HaveOwnPlaces badge_id badge_at) (sym s.badges_same) x.of_badges;
    of_groups = subst (HaveOwnPlaces group_id group_at) (sym s.groups_same) x.of_groups;
  }

  handle-IsInOrder :
      (commits : Bool) (r : AdminRequest) (t : Tables)
      → IsInOrder database t
      → IsInOrder database (handle database commits r t).0
  unfolding handle update_badge update_group
  handle-IsInOrder commits (post_group key name order) t x =
      create_group-IsInOrder commits key name order t x
  handle-IsInOrder commits (patch_group key dto) t x =
      update_group-IsInOrder commits key dto (find_group database key t) t refl x
  handle-IsInOrder commits (post_achievement c) t x =
      of_achievements_only t _ (create_achievement-Same database commits c t)
        (create_achievement-AreApart database commits c t x.in_groups) x
  handle-IsInOrder commits (patch_achievement id dto) t x =
      of_achievements_only t _ (update_achievement-Same database commits id dto t)
        (update_achievement-AreApart database commits id dto t x.in_groups) x
  handle-IsInOrder commits (post_badge b) t x = create_badge-IsInOrder commits b t x
  handle-IsInOrder commits (patch_badge id dto) t x =
      either (IsInOrder database)
        (achievements_exist (achievement_ids database t)
          (given_ids database dto.required_achievement_ids))
        _ _ (update_badge-IsInOrder commits id dto (find_badge database id t) t refl x) x

  -- After any requests, whichever of them fail, no two achievements of a group stand at one position,
  -- nor two badges, nor two groups, if none did before: what stands from a new position on moves up.
  pub handle_all-IsInOrder :
      (rs : List (Bool × AdminRequest)) (t : Tables)
      → IsInOrder database t
      → IsInOrder database (handle_all database rs t)
  unfolding handle_all
  handle_all-IsInOrder [] t x = x
  handle_all-IsInOrder ((commits, r) ∷ rs) t x =
      handle_all-IsInOrder rs (handle database commits r t).0 (handle-IsInOrder commits r t x)
