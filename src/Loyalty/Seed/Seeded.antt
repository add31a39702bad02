-- ===== src/Loyalty/Seed/Seeded.antt =====
-- What the seeder leaves: the rows that were there, the defaults, and no reference that leads nowhere.
use mathlib.Core.Path.{subst}
use bumpa_achievement_system.Common.{
  ◌≡◌, refl, sym, ◌∙◌, ap, Bool, true, List, [], ◌∷◌, ◌++◌, map, has, all, arith, All, Subset,
}
use bumpa_achievement_system.Loyalty.Admin.{achievement_ids, collect_achievement_set_ids}
use bumpa_achievement_system.Loyalty.Admin.Changes.{AdminRequest, handle_all}
use bumpa_achievement_system.Loyalty.Admin.Named.{
  IsIn-Subset, RuleNamesIn-Subset, collected-RuleNamesIn,
}
use bumpa_achievement_system.Loyalty.Admin.References.{NamesIn, RequiresIn, IsResolved, All-mono}
use bumpa_achievement_system.Loyalty.Admin.Resolved.{handle_all-IsResolved}
use bumpa_achievement_system.Loyalty.Seed.{
  SeedDatabase, group_id, achievement_id, badge_id, group_seed_id, seed_id, badge_seed_id,
  new_achievement, new_badge, missing_groups, missing_achievements, missing_badges, on_module_init,
}
use bumpa_achievement_system.Loyalty.Seed.Defaults.{
  AchievementSeed, BadgeSeed, default_achievement_groups, default_achievements, default_badges,
}
use bumpa_achievement_system.Loyalty.Seed.Missing.{none_missing}
use bumpa_achievement_system.Loyalty.Seed.Steps.{
  has-groups, has-achievements, has-badges, kept-All, groups-on_module_init,
  achievements-on_module_init, badges-on_module_init,
}

append-All : {A : Type 0} (P : A → Type 0) (xs ys : List A) → All P xs → All P ys → All P (xs ++ ys)
append-All P [] ys h k = k
append-All P (x ∷ xs) ys (p, h) k = (p, append-All P xs ys h k)

-- Each identifier that a default rule names, or that a default badge requires, is a default's.
rules_known :
    all
      (λ (d : AchievementSeed).
        all
          (has (map seed_id default_achievements))
          (collect_achievement_set_ids (new_achievement d).rule))
      default_achievements
    ≡ true
unfolding default_achievements collect_achievement_set_ids
rules_known = refl

badges_known :
    all
      (λ (d : BadgeSeed).
        all (has (map seed_id default_achievements)) (new_badge d).required_achievement_ids)
      default_badges
    ≡ true
unfolding default_achievements default_badges
badges_known = refl

module _ (seeds : SeedDatabase) where
  open seeds use {database}
  open database use {Tables, groups, achievements, badges}

  knows_groups :
      (t : Tables)
      → Subset
          (map group_seed_id default_achievement_groups)
          (map group_id (groups (on_module_init seeds t)))
  knows_groups t i h =
      ap (λ l. has (map group_id l) i) (groups-on_module_init seeds t)
      ∙ ground (arith, has-groups seeds t i, h)

  knows_achievements :
      (t : Tables)
      → Subset
          (map seed_id default_achievements)
          (map achievement_id (achievements (on_module_init seeds t)))
  knows_achievements t i h =
      ap (λ l. has (map achievement_id l) i) (achievements-on_module_init seeds t)
      ∙ ground (arith, has-achievements seeds t i, h)

  knows_badges :
      (t : Tables)
      → Subset (map badge_seed_id default_badges) (map badge_id (badges (on_module_init seeds t)))
  knows_badges t i h =
      ap (λ l. has (map badge_id l) i) (badges-on_module_init seeds t)
      ∙ ground (arith, has-badges seeds t i, h)

  -- Nothing is missing, nothing is inserted.
  complete-on_module_init :
      (t : Tables)
      → missing_groups seeds t ≡ []
      → missing_achievements seeds t ≡ []
      → missing_badges seeds t ≡ []
      → on_module_init seeds t ≡ t
  unfolding on_module_init
  complete-on_module_init t a b c = simp (a, b, c)

  on_module_init_idem :
      (t : Tables) → on_module_init seeds (on_module_init seeds t) ≡ on_module_init seeds t
  unfolding missing_groups missing_achievements missing_badges
  on_module_init_idem t =
      complete-on_module_init (on_module_init seeds t)
        (ap (map _) (none_missing group_seed_id _ default_achievement_groups (knows_groups t)))
        (ap (map _) (none_missing seed_id _ default_achievements (knows_achievements t)))
        (ap (map _) (none_missing badge_seed_id _ default_badges (knows_badges t)))

  -- The seeder leaves every row that is there as it is, and in its place, and adds what is missing:
  -- after it each default group, achievement and badge is there, under its identifier, and a second
  -- run changes nothing.
  pub on_module_init_adds :
      (t : Tables)
      → let u = on_module_init seeds t in
        (groups u ≡ groups t ++ missing_groups seeds t)
        × (achievements u ≡ achievements t ++ missing_achievements seeds t)
        × (badges u ≡ badges t ++ missing_badges seeds t)
        × Subset (map group_seed_id default_achievement_groups) (map group_id (groups u))
        × Subset (map seed_id default_achievements) (map achievement_id (achievements u))
        × Subset (map badge_seed_id default_badges) (map badge_id (badges u))
        × (on_module_init seeds u ≡ u)
  on_module_init_adds t = (
    groups-on_module_init seeds t,
    achievements-on_module_init seeds t,
    badges-on_module_init seeds t,
    knows_groups t,
    knows_achievements t,
    knows_badges t,
    on_module_init_idem t,
  )

  -- The achievements that were there stay there.
  keeps_achievements :
      (t : Tables)
      → Subset (achievement_ids database t) (achievement_ids database (on_module_init seeds t))
  keeps_achievements t i h =
      ap (λ l. has (map achievement_id l) i) (achievements-on_module_init seeds t)
      ∙ ground (arith, has-achievements seeds t i, h)

  new_rules :
      (t : Tables)
      → All
          (NamesIn (achievement_ids database (on_module_init seeds t)))
          (missing_achievements seeds t)
  unfolding missing_achievements
  new_rules t =
      kept-All new_achievement (NamesIn (achievement_ids database (on_module_init seeds t)))
        (λ d.
          all (has (map seed_id default_achievements))
            (collect_achievement_set_ids (new_achievement d).rule))
        _ default_achievements
        (λ d h.
          RuleNamesIn-Subset _ _ (knows_achievements t)
            (collected-RuleNamesIn (map seed_id default_achievements) (new_achievement d).rule h))
        rules_known

  new_required :
      (t : Tables)
      → All
          (RequiresIn (achievement_ids database (on_module_init seeds t)))
          (missing_badges seeds t)
  unfolding missing_badges
  new_required t =
      kept-All new_badge (RequiresIn (achievement_ids database (on_module_init seeds t)))
        (λ d. all (has (map seed_id default_achievements)) (new_badge d).required_achievement_ids) _
        default_badges (λ d. IsIn-Subset _ _ _ (knows_achievements t)) badges_known

  on_module_init-IsResolved :
      (t : Tables) → IsResolved database t → IsResolved database (on_module_init seeds t)
  on_module_init-IsResolved t h =
      let more = keeps_achievements t in
      record {
        of_rules = subst (All (NamesIn _)) (sym (achievements-on_module_init seeds t)) (
            append-All _ (achievements t) _
              (All-mono _ _ (achievements t) (λ c. RuleNamesIn-Subset _ _ more) h.of_rules)
              (new_rules t));
        of_badges = subst (All (RequiresIn _)) (sym (badges-on_module_init seeds t)) (
            append-All _ (badges t) _
              (All-mono _ _ (badges t) (λ b. IsIn-Subset _ _ _ more) h.of_badges) (new_required t));
      }

  -- The seeder and then any admin requests, however each ends, leave no rule, at any depth, and no
  -- badge that refers to an achievement that is not there, if there was none before.
  pub seeded_handle_all-IsResolved :
      (rs : List (Bool × AdminRequest)) (t : Tables)
      → IsResolved database t
      → IsResolved database (handle_all database rs (on_module_init seeds t))
  seeded_handle_all-IsResolved rs t h =
      handle_all-IsResolved database rs (on_module_init seeds t) (on_module_init-IsResolved t h)
