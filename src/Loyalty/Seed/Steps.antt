-- ===== src/Loyalty/Seed/Steps.antt =====
-- The three steps of `onModuleInit`, and what each table holds after them.
use mathlib.Core.List.{append-nil}
use bumpa_achievement_system.Common.{
  ◌≡◌, refl, sym, ◌∙◌, ap, String, Bool, true, ◌||◌, List, [], ◌∷◌, ◌++◌, map, has, all, arith, All,
  NoRepeat, Bool-cases, inl, inr, Subset, filter,
}
use bumpa_achievement_system.Loyalty.Unlock.{AchievementConfig}
use bumpa_achievement_system.Loyalty.Seed.{
  SeedDatabase, group_id, achievement_id, badge_id, insert_any, seed_id, badge_seed_id, new_group,
  new_achievement, new_badge, group_seed_id, missing_groups, missing_achievements, missing_badges,
  on_module_init,
}
use bumpa_achievement_system.Loyalty.Seed.Defaults.{
  AchievementSeed, default_achievement_groups, default_achievements, default_badges,
}
use bumpa_achievement_system.Loyalty.Seed.Missing.{has-seeded, seeded-NoRepeat}

module _ {A T : Type 0} (insert : List A → T → T) where
  insert_any_adds :
      (read : T → List A) (rows : List A) (t : T)
      → read (insert rows t) ≡ read t ++ rows
      → read (insert_any insert rows t) ≡ read t ++ rows
  insert_any_adds read [] t h = sym (append-nil (read t))
  insert_any_adds read (a ∷ rows) t h = h

  insert_any_keeps :
      {B : Type 0} (read : T → B) (rows : List A) (t : T)
      → read (insert rows t) ≡ read t
      → read (insert_any insert rows t) ≡ read t
  insert_any_keeps read [] t h = refl
  insert_any_keeps read (a ∷ rows) t h = h

-- A check that every row passes, as a fact on each row that is kept.
pub kept-All :
    {A D : Type 0} (make : D → A) (P : A → Type 0) (q p : D → Bool) (ds : List D)
    → ((d : D) → q d ≡ true → P (make d))
    → all q ds ≡ true
    → All P (map make (filter p ds))
kept-All make P q p [] f h = tt
kept-All make P q p (d ∷ ds) f h =
    let rest = kept-All make P q p ds f (ground (arith, h)) in
    elim (Bool-cases (p d)) [
      | inl kept ↦ simp kept (f d (ground (arith, h)), rest)
      | inr dropped ↦ simp dropped rest
    ]

module _ (seeds : SeedDatabase) where
  open seeds use {database, insert_groups, insert_achievements, insert_badges}
  open database use {Tables, groups, achievements, badges}

  -- The three steps of `onModuleInit`.
  abbrev with_groups : Tables → Tables
  with_groups t = insert_any insert_groups (missing_groups seeds t) t

  abbrev with_achievements : Tables → Tables
  with_achievements t = insert_any insert_achievements (missing_achievements seeds t) t

  abbrev with_badges : Tables → Tables
  with_badges t = insert_any insert_badges (missing_badges seeds t) t

  -- The identifiers after a step are the old ones and the defaults'.
  pub has-groups :
      (t : Tables) (i : String)
      → has (map group_id (groups t ++ missing_groups seeds t)) i
        ≡ (has (map group_id (groups t)) i || has (map group_seed_id default_achievement_groups) i)
  unfolding missing_groups
  has-groups t i =
      has-seeded group_id group_seed_id new_group (λ d. refl) (groups t) default_achievement_groups
        i

  pub has-achievements :
      (t : Tables) (i : String)
      → has (map achievement_id (achievements t ++ missing_achievements seeds t)) i
        ≡ (has (map achievement_id (achievements t)) i || has (map seed_id default_achievements) i)
  unfolding missing_achievements
  has-achievements t i =
      has-seeded achievement_id seed_id new_achievement (λ d. refl) (achievements t)
        default_achievements i

  pub has-badges :
      (t : Tables) (i : String)
      → has (map badge_id (badges t ++ missing_badges seeds t)) i
        ≡ (has (map badge_id (badges t)) i || has (map badge_seed_id default_badges) i)
  unfolding missing_badges
  has-badges t i =
      has-seeded badge_id badge_seed_id new_badge (λ d. refl) (badges t) default_badges i

  groups_once : (t : Tables) → NoRepeat (map group_id (groups t ++ missing_groups seeds t))
  unfolding missing_groups default_achievement_groups
  groups_once t =
      seeded-NoRepeat group_id group_seed_id new_group (λ d. refl) (groups t)
        default_achievement_groups (database.groups-once t) (refl, (refl, (refl, tt)))

  groups-with_groups : (t : Tables) → groups (with_groups t) ≡ groups t ++ missing_groups seeds t
  groups-with_groups t =
      insert_any_adds insert_groups groups (missing_groups seeds t) t
        (seeds.groups-insert_groups (missing_groups seeds t) t (groups_once t))

  achievements_once :
      (t : Tables) → NoRepeat (map achievement_id (achievements t ++ missing_achievements seeds t))
  unfolding missing_achievements default_achievements
  achievements_once t =
      seeded-NoRepeat achievement_id seed_id new_achievement (λ d. refl) (achievements t)
        default_achievements (database.achievements-once t)
        (refl, (refl, (refl, (refl, (refl, (refl, tt))))))

  badges_once : (t : Tables) → NoRepeat (map badge_id (badges t ++ missing_badges seeds t))
  unfolding missing_badges default_badges
  badges_once t =
      seeded-NoRepeat badge_id badge_seed_id new_badge (λ d. refl) (badges t) default_badges
        (database.badges-once t) (refl, (refl, (refl, (refl, tt))))

  -- The group of each default achievement is a default group.
  groups_known :
      all
        (λ (d : AchievementSeed). has (map group_seed_id default_achievement_groups) d.group_key)
        default_achievements
      ≡ true
  unfolding default_achievement_groups default_achievements
  groups_known = refl

  in_groups :
      (t : Tables)
      → Subset (map group_seed_id default_achievement_groups) (map group_id (groups t))
      → All
          (λ (c : AchievementConfig). has (map group_id (groups t)) c.group_key ≡ true)
          (missing_achievements seeds t)
  unfolding missing_achievements
  in_groups t known =
      kept-All new_achievement
        (λ (c : AchievementConfig). has (map group_id (groups t)) c.group_key ≡ true)
        (λ d. has (map group_seed_id default_achievement_groups) d.group_key) _ default_achievements
        (λ d h. known d.group_key h) groups_known

  achievements-with_achievements :
      (t : Tables)
      → Subset (map group_seed_id default_achievement_groups) (map group_id (groups t))
      → achievements (with_achievements t) ≡ achievements t ++ missing_achievements seeds t
  achievements-with_achievements t known =
      insert_any_adds insert_achievements achievements (missing_achievements seeds t) t (
        seeds.achievements-insert_achievements (missing_achievements seeds t) t
          (achievements_once t) (in_groups t known))

  badges-with_badges : (t : Tables) → badges (with_badges t) ≡ badges t ++ missing_badges seeds t
  badges-with_badges t =
      insert_any_adds insert_badges badges (missing_badges seeds t) t
        (seeds.badges-insert_badges (missing_badges seeds t) t (badges_once t))

  -- The tables after the three steps.
  pub groups-on_module_init :
      (t : Tables) → groups (on_module_init seeds t) ≡ groups t ++ missing_groups seeds t
  unfolding on_module_init
  groups-on_module_init t =
      insert_any_keeps insert_badges groups (missing_badges seeds _) _
        (seeds.groups-insert_badges (missing_badges seeds _) _)
      ∙ (insert_any_keeps insert_achievements groups (missing_achievements seeds _) _
            (seeds.groups-insert_achievements (missing_achievements seeds _) _)
          ∙ groups-with_groups t)

  knows_groups :
      (t : Tables)
      → Subset
          (map group_seed_id default_achievement_groups)
          (map group_id (groups (with_groups t)))
  knows_groups t i h =
      ap (λ l. has (map group_id l) i) (groups-with_groups t) ∙ ground (arith, has-groups t i, h)

  achievements-with_groups : (t : Tables) → achievements (with_groups t) ≡ achievements t
  achievements-with_groups t =
      insert_any_keeps insert_groups achievements (missing_groups seeds t) t
        (seeds.achievements-insert_groups (missing_groups seeds t) t)

  missing_achievements-same :
      (t u : Tables)
      → achievements u ≡ achievements t
      → missing_achievements seeds u ≡ missing_achievements seeds t
  unfolding missing_achievements
  missing_achievements-same t u same = rw same refl

  missing_badges-same :
      (t u : Tables) → badges u ≡ badges t → missing_badges seeds u ≡ missing_badges seeds t
  unfolding missing_badges
  missing_badges-same t u same = rw same refl

  pub achievements-on_module_init :
      (t : Tables)
      → achievements (on_module_init seeds t) ≡ achievements t ++ missing_achievements seeds t
  unfolding on_module_init
  achievements-on_module_init t =
      insert_any_keeps insert_badges achievements (missing_badges seeds _) _
        (seeds.achievements-insert_badges (missing_badges seeds _) _)
      ∙ (achievements-with_achievements (with_groups t) (knows_groups t)
          ∙ cc (
            achievements-with_groups t,
            missing_achievements-same t (with_groups t) (achievements-with_groups t),
          ))

  badges-before : (t : Tables) → badges (with_achievements (with_groups t)) ≡ badges t
  badges-before t =
      insert_any_keeps insert_achievements badges (missing_achievements seeds _) _
        (seeds.badges-insert_achievements (missing_achievements seeds _) _)
      ∙ insert_any_keeps insert_groups badges (missing_groups seeds t) t
          (seeds.badges-insert_groups (missing_groups seeds t) t)

  pub badges-on_module_init :
      (t : Tables) → badges (on_module_init seeds t) ≡ badges t ++ missing_badges seeds t
  unfolding on_module_init
  badges-on_module_init t =
      badges-with_badges (with_achievements (with_groups t))
      ∙ cc (badges-before t, missing_badges-same t _ (badges-before t))
