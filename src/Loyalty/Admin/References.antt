-- ===== src/Loyalty/Admin/References.antt =====
-- The references of rules and badges to achievements: no statement on the tables breaks one.
use mathlib.Core.Path.{subst}
use bumpa_achievement_system.Common.{
  ◌≡◌, refl, ◌∙◌, ap, String, Bool, true, some, some-eq, List, [], ◌∷◌, map, has, find, ◌==◌, arith,
  All, Bool-cases, inl, inr, Subset, eq_iff, ◌||◌,
}
use bumpa_achievement_system.Loyalty.Admin.Named.{
  IsIn, IsIn-Subset, RuleNamesIn, RuleNamesIn-Subset,
}
use bumpa_achievement_system.Loyalty.Unlock.{AchievementConfig}
use bumpa_achievement_system.Loyalty.Badges.{BadgeConfig}
use bumpa_achievement_system.Loyalty.Admin.{
  AdminDatabase, AchievementGroup, put, next_position, next_badge_position, incremented,
  achievement_ids,
}

module _ {A : Type 0} where
  pub All-mono : (P Q : A → Type 0) (l : List A) → ((a : A) → P a → Q a) → All P l → All Q l
  All-mono P Q [] f h = tt
  All-mono P Q (a ∷ l) f (h, hs) = (f a h, All-mono P Q l f hs)

  module _ (id : A → String) where
    pub find_meets :
        (P : A → Type 0) (i : String) (l : List A) (a : A)
        → find (λ x. id x == i) l ≡ some a
        → All P l
        → P a
    find_meets P i [] a h hs = cc
    find_meets P i (x ∷ l) a h (p, ps) = elim (Bool-cases (id x == i)) [
      | inl same ↦ subst P (some-eq (simp same at h)) p
      | inr other ↦ find_meets P i l a (simp other at h) ps
    ]

    put-All : (P : A → Type 0) (a : A) (l : List A) → P a → All P l → All P (put id a l)
    put-All P a [] p h = (p, tt)
    put-All P a (x ∷ l) p (h, hs) = elim (Bool-cases (id x == id a)) [
      | inl same ↦ simp same (p, hs)
      | inr other ↦ simp other (h, put-All P a l p hs)
    ]

    put_ids-Subset : (a : A) (l : List A) → Subset (map id l) (map id (put id a l))
    put_ids-Subset a [] i h = cc
    put_ids-Subset a (x ∷ l) i h = elim (Bool-cases (id x == id a)) [
      | inl same ↦
          simp same
            (subst (λ k. (k == i || has (map id l) i) ≡ true) ((eq_iff (id x) (id a)).0 same) h)
      | inr other ↦ simp other (ground (arith, h, put_ids-Subset a l i))
    ]

    incremented_ids :
        (move : A → A) (p : A → Bool) (l : List A)
        → ((a : A) → id (move a) ≡ id a)
        → map id (incremented p move l) ≡ map id l
    incremented_ids move p [] same = refl
    incremented_ids move p (a ∷ l) same = elim (Bool-cases (p a)) [
      | inl moved ↦ simp (moved, same, incremented_ids move p l same)
      | inr kept ↦ simp (kept, incremented_ids move p l same)
    ]

  incremented-All :
      (P : A → Type 0) (move : A → A) (p : A → Bool) (l : List A)
      → ((a : A) → P a → P (move a))
      → All P l
      → All P (incremented p move l)
  incremented-All P move p [] f h = tt
  incremented-All P move p (a ∷ l) f (h, hs) = elim (Bool-cases (p a)) [
    | inl moved ↦ simp moved (f a h, incremented-All P move p l f hs)
    | inr kept ↦ simp kept (h, incremented-All P move p l f hs)
  ]

abbrev key : AchievementConfig → String
key c = c.id

abbrev badge_key : BadgeConfig → String
badge_key b = b.id

-- The rule of the achievement, and the achievements that a badge requires.
abbrev pub NamesIn : List String → AchievementConfig → Type 0
NamesIn ids c = RuleNamesIn ids c.rule

abbrev pub RequiresIn : List String → BadgeConfig → Type 0
RequiresIn ids b = IsIn ids b.required_achievement_ids

module _ (database : AdminDatabase) where
  open database use {
    Tables, groups, achievements, badges, increment_groups, increment_achievements,
    increment_badges, save_group, save_achievement, save_badge,
  }

  abbrev ids : Tables → List String
  ids t = achievement_ids database t

  -- What the tables refer to is there.
  pub record IsResolved (t : Tables) : Type 0 where
    pub of_rules : All (NamesIn (ids t)) (achievements t)
    pub of_badges : All (RequiresIn (ids t)) (badges t)

  -- The same rows in the two tables that matter.
  IsResolved-same :
      (t u : Tables)
      → achievements u ≡ achievements t
      → badges u ≡ badges t
      → IsResolved t
      → IsResolved u
  IsResolved-same t u same same' h = record {
    of_rules = rw same h.of_rules;
    of_badges = rw (same, same') h.of_badges;
  }

  -- More achievements, and rows that refer to those before.
  pub IsResolved-grown :
      (t u : Tables)
      → Subset (ids t) (ids u)
      → All (NamesIn (ids t)) (achievements u)
      → All (RequiresIn (ids t)) (badges u)
      → IsResolved u
  IsResolved-grown t u more rules required = record {
    of_rules =
        All-mono _ _ (achievements u) (λ c h. RuleNamesIn-Subset (ids t) (ids u) more h) rules;
    of_badges = All-mono _ _ (badges u) (λ b h. IsIn-Subset (ids t) (ids u) _ more h) required;
  }

  pub save_group-IsResolved :
      (g : AchievementGroup) (t : Tables) → IsResolved t → IsResolved (save_group g t)
  save_group-IsResolved g t h =
      IsResolved-same t (save_group g t) (database.achievements-save_group g t)
        (database.badges-save_group g t) h

  pub increment_groups-IsResolved :
      (p : AchievementGroup → Bool) (t : Tables) → IsResolved t → IsResolved (increment_groups p t)
  increment_groups-IsResolved p t h =
      IsResolved-same t (increment_groups p t) (database.achievements-increment_groups p t)
        (database.badges-increment_groups p t) h

  pub save_badge-IsResolved :
      (b : BadgeConfig) (t : Tables)
      → RequiresIn (ids t) b
      → IsResolved t
      → IsResolved (save_badge b t)
  save_badge-IsResolved b t own h = record {
    of_rules = rw (database.achievements-save_badge b t) h.of_rules;
    of_badges =
        rw (database.achievements-save_badge b t, database.badges-save_badge b t)
          (put-All badge_key (RequiresIn (ids t)) b (badges t) own h.of_badges);
  }

  pub increment_badges-IsResolved :
      (p : BadgeConfig → Bool) (t : Tables) → IsResolved t → IsResolved (increment_badges p t)
  increment_badges-IsResolved p t h = record {
    of_rules = rw (database.achievements-increment_badges p t) h.of_rules;
    of_badges =
        rw (database.achievements-increment_badges p t, database.badges-increment_badges p t)
          (incremented-All (RequiresIn (ids t)) next_badge_position p (badges t) (λ b h. h)
            h.of_badges);
  }

  pub increment_achievements_ids :
      (p : AchievementConfig → Bool) (t : Tables) → ids (increment_achievements p t) ≡ ids t
  increment_achievements_ids p t =
      ap (map key) (database.achievements-increment_achievements p t)
      ∙ incremented_ids key next_position p (achievements t) (λ c. refl)

  pub increment_achievements-IsResolved :
      (p : AchievementConfig → Bool) (t : Tables)
      → IsResolved t
      → IsResolved (increment_achievements p t)
  increment_achievements-IsResolved p t h = record {
    of_rules =
        rw (increment_achievements_ids p t, database.achievements-increment_achievements p t)
          (incremented-All (NamesIn (ids t)) next_position p (achievements t) (λ c h. h)
            h.of_rules);
    of_badges =
        rw (increment_achievements_ids p t, database.badges-increment_achievements p t) h.of_badges;
  }

  pub save_achievement-IsResolved :
      (c : AchievementConfig) (t : Tables)
      → NamesIn (ids t) c
      → IsResolved t
      → IsResolved (save_achievement c t)
  save_achievement-IsResolved c t own h =
      IsResolved-grown t (save_achievement c t)
        (rw (database.achievements-save_achievement c t) (put_ids-Subset key c (achievements t)))
        (rw (database.achievements-save_achievement c t)
          (put-All key (NamesIn (ids t)) c (achievements t) own h.of_rules))
        (rw (database.badges-save_achievement c t) h.of_badges)
