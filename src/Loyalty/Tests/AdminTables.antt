-- ===== src/Loyalty/Tests/AdminTables.antt =====
-- Tables of the admin API that have the laws of the interface.
use mathlib.Core.Path.{subst}
use bumpa_achievement_system.Common.{
  ◌≡◌, refl, sym, ◌∙◌, ap, String, Bool, false, List, [], ◌∷◌, map, has, ◌==◌, arith, NoRepeat,
  Bool-cases, inl, inr, eq_iff,
}
use bumpa_achievement_system.Loyalty.Unlock.{AchievementConfig}
use bumpa_achievement_system.Loyalty.Badges.{BadgeConfig}
use bumpa_achievement_system.Loyalty.Admin.{
  AdminDatabase, AchievementGroup, put, next_position, next_badge_position, next_group_position,
  incremented,
}

module _ {A : Type 0} (id : A → String) where
  incremented-id :
      (move : A → A) (p : A → Bool) (l : List A)
      → ((a : A) → id (move a) ≡ id a)
      → map id (incremented p move l) ≡ map id l
  incremented-id move p [] same = refl
  incremented-id move p (a ∷ l) same = elim (Bool-cases (p a)) [
    | inl moved ↦ simp (moved, same, incremented-id move p l same)
    | inr kept ↦ simp (kept, incremented-id move p l same)
  ]

  put-has :
      (a : A) (l : List A) (i : String)
      → (id a == i) ≡ false
      → has (map id l) i ≡ false
      → has (map id (put id a l)) i ≡ false
  put-has a [] i n h = simp n
  put-has a (c ∷ l) i n h = elim (Bool-cases (id c == id a)) [
    | inl same ↦ simp same (ground (arith, n, h))
    | inr other ↦ simp other (ground (arith, h, put-has a l i n))
  ]

  pub put-NoRepeat : (a : A) (l : List A) → NoRepeat (map id l) → NoRepeat (map id (put id a l))
  put-NoRepeat a [] h = (refl, tt)
  put-NoRepeat a (c ∷ l) (n, h) = elim (Bool-cases (id c == id a)) [
    | inl same ↦ simp same (ap (has (map id l)) (sym ((eq_iff (id c) (id a)).0 same)) ∙ n, h)
    | inr other ↦
        let differs : (id a == id c) ≡ false =
          ground (arith, other, eq_iff (id a) (id c), eq_iff (id c) (id a)) in
        simp other (put-has a l (id c) differs n, put-NoRepeat a l h)
  ]

  pub incremented-NoRepeat :
      (move : A → A) (p : A → Bool) (l : List A)
      → ((a : A) → id (move a) ≡ id a)
      → NoRepeat (map id l)
      → NoRepeat (map id (incremented p move l))
  incremented-NoRepeat move p l same h = subst NoRepeat (sym (incremented-id move p l same)) h

abbrev pub key : AchievementConfig → String
key c = c.id

abbrev pub badge_key : BadgeConfig → String
badge_key b = b.id

abbrev pub group_key : AchievementGroup → String
group_key g = g.key

pub record Tables : Type 0 where
  pub groups : List AchievementGroup
  pub achievements : List AchievementConfig
  pub badges : List BadgeConfig
  pub once : NoRepeat (map key achievements)
  pub badges_once : NoRepeat (map badge_key badges)
  pub groups_once : NoRepeat (map group_key groups)

abbrev pub database : AdminDatabase
database = record {
  Tables = Tables;
  groups = λ t. t.groups;
  achievements = λ t. t.achievements;
  badges = λ t. t.badges;
  increment_groups = λ p t. record t {
    groups = incremented p next_group_position t.groups;
    groups_once =
        incremented-NoRepeat group_key next_group_position p t.groups (λ g. refl) t.groups_once;
  };
  increment_achievements = λ p t. record t {
    achievements = incremented p next_position t.achievements;
    once = incremented-NoRepeat key next_position p t.achievements (λ c. refl) t.once;
  };
  increment_badges = λ p t. record t {
    badges = incremented p next_badge_position t.badges;
    badges_once =
        incremented-NoRepeat badge_key next_badge_position p t.badges (λ b. refl) t.badges_once;
  };
  save_group = λ g t. record t {
    groups = put group_key g t.groups;
    groups_once = put-NoRepeat group_key g t.groups t.groups_once;
  };
  save_achievement = λ c t. record t {
    achievements = put key c t.achievements;
    once = put-NoRepeat key c t.achievements t.once;
  };
  save_badge = λ b t. record t {
    badges = put badge_key b t.badges;
    badges_once = put-NoRepeat badge_key b t.badges t.badges_once;
  };
  achievements-once = λ t. t.once;
  badges-once = λ t. t.badges_once;
  groups-once = λ t. t.groups_once;
  achievements-increment_achievements = λ p t. refl;
  achievements-save_achievement = λ c t. refl;
  badges-increment_badges = λ p t. refl;
  badges-save_badge = λ b t. refl;
  groups-increment_groups = λ p t. refl;
  groups-save_group = λ g t. refl;
  groups-save_achievement = λ r t. refl;
  groups-increment_achievements = λ p t. refl;
  groups-save_badge = λ r t. refl;
  groups-increment_badges = λ p t. refl;
  achievements-save_group = λ r t. refl;
  achievements-increment_groups = λ p t. refl;
  achievements-save_badge = λ r t. refl;
  achievements-increment_badges = λ p t. refl;
  badges-save_group = λ r t. refl;
  badges-increment_groups = λ p t. refl;
  badges-save_achievement = λ r t. refl;
  badges-increment_achievements = λ p t. refl;
}
