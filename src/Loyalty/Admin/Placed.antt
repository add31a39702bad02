-- ===== src/Loyalty/Admin/Placed.antt =====
-- A badge or a group stored at its place.
use mathlib.Core.Path.{subst}
use bumpa_achievement_system.Common.{
  ℕ, ◌≡◌, refl, sym, ◌∙◌, ap, String, Bool, true, false, Option, some, some-eq, List, [], ◌∷◌, find,
  if◌then◌else◌, ◌==◌, arith, Bool-cases, inl, inr, eq_iff,
}
use bumpa_achievement_system.Loyalty.Badges.{BadgeConfig}
use bumpa_achievement_system.Loyalty.Admin.{
  AdminDatabase, AchievementGroup, put, next_badge_position, next_group_position, moves_badge,
  moves_group, not_excluded,
}
use bumpa_achievement_system.Loyalty.Admin.Positions.{AreApart}
use bumpa_achievement_system.Loyalty.Admin.Places.{HaveOwnPlaces, put_own}

abbrev pub badge_id : BadgeConfig → String
badge_id b = b.id

abbrev pub badge_at : BadgeConfig → ℕ
badge_at b = b.sort_order

abbrev pub group_id : AchievementGroup → String
group_id g = g.key

abbrev pub group_at : AchievementGroup → ℕ
group_at g = g.sort_order

-- A table keeps a property when both ends of a test do.
pub either :
    {T B : Type 0} (P : T → Type 0) (b : Bool) (x y : T × B)
    → P x.0
    → P y.0
    → P (if b then x else y).0
either P true x y p q = p
either P false x y p q = q

pub find_own :
    {A : Type 0} (id : A → String) (i : String) (l : List A) (old : A)
    → find (λ a. id a == i) l ≡ some old
    → id old ≡ i
find_own id i [] old h = cc
find_own id i (a ∷ l) old h = elim (Bool-cases (id a == i)) [
  | inl same ↦ sym (ap id (some-eq (simp same at h))) ∙ (eq_iff (id a) i).0 same
  | inr other ↦ find_own id i l old (simp other at h)
]

module _ (database : AdminDatabase) where
  open database use {Tables, groups, achievements, badges}

  -- The achievements of a group, the badges and the groups stand at places of their own.
  pub record IsInOrder (t : Tables) : Type 0 where
    pub in_groups : AreApart (achievements t)
    pub of_badges : HaveOwnPlaces badge_id badge_at (badges t)
    pub of_groups : HaveOwnPlaces group_id group_at (groups t)

  inserted_badge :
      (exclude : Option String) (b : BadgeConfig) (t : Tables)
      → ((c : BadgeConfig) → (c.id == b.id) ≡ false → not_excluded exclude c.id ≡ true)
      → HaveOwnPlaces badge_id badge_at (badges t)
      → HaveOwnPlaces badge_id badge_at (
          badges (
            database.save_badge b (database.increment_badges (moves_badge b.sort_order exclude) t)))
  inserted_badge exclude b t others h =
      let m = moves_badge b.sort_order exclude in
      subst (HaveOwnPlaces badge_id badge_at)
        (sym (
          database.badges-save_badge b (database.increment_badges m t)
          ∙ ap (put badge_id b) (database.badges-increment_badges m t)))
        (put_own badge_id badge_at b next_badge_position m (λ c. refl) (λ c. refl)
          (λ c o. ground (arith, others c o)) (badges t) (database.badges-once t) h)

  inserted_group :
      (exclude : Option String) (g : AchievementGroup) (t : Tables)
      → ((c : AchievementGroup) → (c.key == g.key) ≡ false → not_excluded exclude c.key ≡ true)
      → HaveOwnPlaces group_id group_at (groups t)
      → HaveOwnPlaces group_id group_at (
          groups (
            database.save_group g (database.increment_groups (moves_group g.sort_order exclude) t)))
  inserted_group exclude g t others h =
      let m = moves_group g.sort_order exclude in
      subst (HaveOwnPlaces group_id group_at)
        (sym (
          database.groups-save_group g (database.increment_groups m t)
          ∙ ap (put group_id g) (database.groups-increment_groups m t)))
        (put_own group_id group_at g next_group_position m (λ c. refl) (λ c. refl)
          (λ c o. ground (arith, others c o)) (groups t) (database.groups-once t) h)

  -- Statements on the badges alone, with what they make of the badges.
  pub of_badges_only :
      (t t' : Tables)
      → achievements t' ≡ achievements t
      → groups t' ≡ groups t
      → HaveOwnPlaces badge_id badge_at (badges t')
      → IsInOrder t
      → IsInOrder t'
  of_badges_only t t' a g h x = record {
    in_groups = subst AreApart (sym a) x.in_groups;
    of_badges = h;
    of_groups = subst (HaveOwnPlaces group_id group_at) (sym g) x.of_groups;
  }

  pub of_groups_only :
      (t t' : Tables)
      → achievements t' ≡ achievements t
      → badges t' ≡ badges t
      → HaveOwnPlaces group_id group_at (groups t')
      → IsInOrder t
      → IsInOrder t'
  of_groups_only t t' a b h x = record {
    in_groups = subst AreApart (sym a) x.in_groups;
    of_badges = subst (HaveOwnPlaces badge_id badge_at) (sym b) x.of_badges;
    of_groups = h;
  }

  pub placed_badge :
      (exclude : Option String) (b : BadgeConfig) (t : Tables)
      → ((c : BadgeConfig) → (c.id == b.id) ≡ false → not_excluded exclude c.id ≡ true)
      → IsInOrder t
      → IsInOrder
          (database.save_badge b (database.increment_badges (moves_badge b.sort_order exclude) t))
  placed_badge exclude b t others x =
      let m = moves_badge b.sort_order exclude in
      of_badges_only t _
        (database.achievements-save_badge b (database.increment_badges m t)
          ∙ database.achievements-increment_badges m t)
        (database.groups-save_badge b (database.increment_badges m t)
          ∙ database.groups-increment_badges m t)
        (inserted_badge exclude b t others x.of_badges) x

  pub placed_group :
      (exclude : Option String) (g : AchievementGroup) (t : Tables)
      → ((c : AchievementGroup) → (c.key == g.key) ≡ false → not_excluded exclude c.key ≡ true)
      → IsInOrder t
      → IsInOrder
          (database.save_group g (database.increment_groups (moves_group g.sort_order exclude) t))
  placed_group exclude g t others x =
      let m = moves_group g.sort_order exclude in
      of_groups_only t _
        (database.achievements-save_group g (database.increment_groups m t)
          ∙ database.achievements-increment_groups m t)
        (database.badges-save_group g (database.increment_groups m t)
          ∙ database.badges-increment_groups m t)
        (inserted_group exclude g t others x.of_groups) x
