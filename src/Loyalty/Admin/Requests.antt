-- ===== src/Loyalty/Admin/Requests.antt =====
-- What a request leaves: achievements at places of their own, and rules whose references exist.
use mathlib.Core.Path.{subst}
use mathlib.Core.Bool.{and-eq-true_iff}
use bumpa_achievement_system.Common.{
  ◌≡◌, refl, sym, ◌∙◌, ap, String, Bool, true, false, not, ◌&&◌, Option, none, some, map, has,
  if◌then◌else◌, nat_eq, ◌==◌, arith, Bool-cases, inl, inr, eq_iff, Subset, all,
}
use bumpa_achievement_system.Loyalty.Unlock.{AchievementConfig}
use bumpa_achievement_system.Loyalty.Admin.{
  AdminDatabase, AchievementGroup, put, AdminAnswer, done, UpdateAchievementConfigDto,
  merge_achievement, not_excluded, moves_achievement, find_achievement, achievement_ids,
  insert_achievement, create_achievement, move_achievement, update_found, update_achievement,
  given_rule, achievements_exist, collect_achievement_set_ids,
}
use bumpa_achievement_system.Loyalty.Admin.Positions.{key, AreApart, IsOther, put_apart}
use bumpa_achievement_system.Loyalty.Admin.Found.{
  excluded_other, all-Subset, find-id, replaced_apart,
}

module _ (database : AdminDatabase) where
  open database use {Tables, achievements}

  stored_apart :
      (new : AchievementConfig) (exclude : Option String) (t : Tables)
      → ((c : AchievementConfig) → IsOther new exclude c → not_excluded exclude c.id ≡ true)
      → AreApart (achievements t)
      → AreApart (
          achievements (
            database.save_achievement new (
              database.increment_achievements
                (moves_achievement new.group_key new.sort_order exclude)
                t)))
  stored_apart new exclude t included h =
      let m = moves_achievement new.group_key new.sort_order exclude in
      subst AreApart
        (sym (
          database.achievements-save_achievement new (database.increment_achievements m t)
          ∙ ap (put key new) (database.achievements-increment_achievements m t)))
        (put_apart new exclude included (achievements t) (database.achievements-once t) h)

  abbrev Keeps : Tables → Type 0
  Keeps t = AreApart (achievements t)

  either :
      (b : Bool) (x y : Tables × AdminAnswer)
      → (b ≡ true → Keeps x.0)
      → (b ≡ false → Keeps y.0)
      → Keeps (if b then x else y).0
  either true x y f g = f refl
  either false x y f g = g refl

  either_table :
      (b : Bool) (x y : Tables)
      → (b ≡ true → Keeps x)
      → (b ≡ false → Keeps y)
      → Keeps (if b then x else y)
  either_table true x y f g = f refl
  either_table false x y f g = g refl

  insert-Keeps :
      (commits : Bool) (c : AchievementConfig) (t : Tables)
      → Keeps t
      → Keeps (insert_achievement database commits c t).0
  unfolding insert_achievement
  insert-Keeps commits c t h =
      either (has (achievement_ids database t) c.id) _ _ (λ e. h)
        (λ e.
          either (not (has (map (λ (g : AchievementGroup). g.key) (database.groups t)) c.group_key))
            _ _ (λ e. h)
            (λ e. either commits _ _ (λ e. stored_apart c none t (λ x o. refl) h) (λ e. h)))

  move-Keeps :
      (old c : AchievementConfig) (t : Tables)
      → c.id ≡ old.id
      → find_achievement database c.id t ≡ some old
      → Keeps t
      → Keeps (move_achievement database old c t)
  unfolding move_achievement
  move-Keeps old c t same found h =
      either_table (c.group_key == old.group_key && nat_eq c.sort_order old.sort_order) _ _
        (λ e.
          let (g, n) = (and-eq-true_iff (c.group_key == old.group_key) _).0 e in
          let order : c.sort_order ≡ old.sort_order = ground (arith, n) in
          subst AreApart (sym (database.achievements-save_achievement c t)) (
            replaced_apart c old (achievements t) found
              (sym ((eq_iff c.group_key old.group_key).0 g)) (sym order) h))
        (λ e. stored_apart c (some old.id) t (λ x o. excluded_other x.id c.id old.id same o) h)

  update_found-Keeps :
      (commits : Bool) (dto : UpdateAchievementConfigDto) (id : String)
      (o : Option AchievementConfig) (t : Tables)
      → find_achievement database id t ≡ o
      → Keeps t
      → Keeps (update_found database commits dto o t).0
  unfolding update_found
  update_found-Keeps commits dto id none t found h = h
  update_found-Keeps commits dto id (some old) t found h =
      let c = merge_achievement dto old in
      let own = find-id id (achievements t) old found in
      let found' : find_achievement database old.id t ≡ some old =
        ap (λ i. find_achievement database i t) own ∙ found in
      either (not (has (map (λ (g : AchievementGroup). g.key) (database.groups t)) c.group_key)) _ _
        (λ e. h) (λ e. either commits _ _ (λ e. move-Keeps old c t refl found' h) (λ e. h))

  -- Creating an achievement, however the request ends, keeps the achievements of each group at places
  -- of their own: those from its position on move up by one.
  pub create_achievement-AreApart :
      (commits : Bool) (c : AchievementConfig) (t : Tables)
      → AreApart (achievements t)
      → AreApart (achievements (create_achievement database commits c t).0)
  unfolding create_achievement
  create_achievement-AreApart commits c t h =
      either (achievements_exist (achievement_ids database t) (collect_achievement_set_ids c.rule))
        _ _ (λ e. insert-Keeps commits c t h) (λ e. h)

  -- An achievement is created only if every achievement that its rule names, at any depth, is there.
  pub create_achievement_references :
      (commits : Bool) (c : AchievementConfig) (t : Tables)
      → (create_achievement database commits c t).1 ≡ done
      → Subset (collect_achievement_set_ids c.rule) (achievement_ids database t)
  unfolding create_achievement achievements_exist
  create_achievement_references commits c t h =
      elim (Bool-cases
        (all (has (achievement_ids database t)) (collect_achievement_set_ids c.rule))) [
          | inl there ↦
              all-Subset (achievement_ids database t) (collect_achievement_set_ids c.rule) there
          | inr missing ↦ absurd (cc (simp missing at h))
        ]

  -- Updating an achievement keeps the same, whether it moves or stays.
  pub update_achievement-AreApart :
      (commits : Bool) (id : String) (dto : UpdateAchievementConfigDto) (t : Tables)
      → AreApart (achievements t)
      → AreApart (achievements (update_achievement database commits id dto t).0)
  unfolding update_achievement
  update_achievement-AreApart commits id dto t h =
      either (achievements_exist (achievement_ids database t) (given_rule database dto.rule)) _ _
        (λ e. update_found-Keeps commits dto id (find_achievement database id t) t refl h) (λ e. h)
