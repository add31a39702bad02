-- ===== src/Loyalty/Tests/Seed.antt =====
-- The seeder on concrete tables.
use mathlib.Core.Path.{subst}
use bumpa_achievement_system.Common.{
  ◌≡◌, refl, sym, ◌∙◌, ap, String, Bool, true, false, none, List, [], ◌∷◌, ◌++◌, map, has, ◌==◌,
  arith, NoRepeat, Bool-cases, inl, inr, eq_iff, Subset,
}
use bumpa_achievement_system.Loyalty.Admin.{put}
use bumpa_achievement_system.Loyalty.Admin.Changes.{AdminRequest, post_group, handle_all}
use bumpa_achievement_system.Loyalty.Admin.References.{IsResolved}
use bumpa_achievement_system.Loyalty.Seed.{
  SeedDatabase, group_id, achievement_id, badge_id, group_seed_id, seed_id, badge_seed_id,
  missing_groups, missing_achievements, missing_badges, on_module_init,
}
use bumpa_achievement_system.Loyalty.Seed.Defaults.{
  default_achievement_groups, default_achievements, default_badges,
}
use bumpa_achievement_system.Loyalty.Seed.Seeded.{on_module_init_adds, seeded_handle_all-IsResolved}
use bumpa_achievement_system.Loyalty.Tests.AdminTables.{
  Tables, database, key, badge_key, group_key, put-NoRepeat,
}

module _ {A : Type 0} (id : A → String) where
  abbrev put_all : List A → List A → List A
  put_all [] l = l
  put_all (a ∷ rows) l = put_all rows (put id a l)

  put_all-NoRepeat : (rows l : List A) → NoRepeat (map id l) → NoRepeat (map id (put_all rows l))
  put_all-NoRepeat [] l h = h
  put_all-NoRepeat (a ∷ rows) l h = put_all-NoRepeat rows (put id a l) (put-NoRepeat id a l h)

  put_new : (a : A) (l : List A) → has (map id l) (id a) ≡ false → put id a l ≡ l ++ a ∷ []
  put_new a [] h = refl
  put_new a (x ∷ l) h = elim (Bool-cases (id x == id a)) [
    | inl same ↦ cc (simp same at h)
    | inr other ↦ simp other (ap (λ r. x ∷ r) (put_new a l (simp other at h)))
  ]

  append_assoc : (a : A) (l rows : List A) → (l ++ a ∷ []) ++ rows ≡ l ++ a ∷ rows
  append_assoc a [] rows = refl
  append_assoc a (x ∷ l) rows = ap (λ r. x ∷ r) (append_assoc a l rows)

  has-middle : (a : A) (l rows : List A) → has (map id (l ++ a ∷ rows)) (id a) ≡ true
  has-middle a [] rows = ground (arith, eq_iff (id a) (id a))
  has-middle a (x ∷ l) rows = ground (arith, has-middle a l rows)

  middle_new :
      (a : A) (l rows : List A) → NoRepeat (map id (l ++ a ∷ rows)) → has (map id l) (id a) ≡ false
  middle_new a [] rows h = refl
  middle_new a (x ∷ l) rows (f, h) = elim (Bool-cases (id x == id a)) [
    | inl same ↦
        let own = (eq_iff (id x) (id a)).0 same in
        absurd (cc (ap (has (map id (l ++ a ∷ rows))) own, f, has-middle a l rows))
    | inr other ↦ simp other (middle_new a l rows h)
  ]

  put_all-adds : (rows l : List A) → NoRepeat (map id (l ++ rows)) → put_all rows l ≡ l ++ rows
  put_all-adds [] l h = sym (append_none l)
    where
      append_none : (l : List A) → l ++ [] ≡ l
      append_none [] = refl
      append_none (a ∷ l) = ap (λ r. a ∷ r) (append_none l)
  put_all-adds (a ∷ rows) l h =
      ap (put_all rows) (put_new a l (middle_new a l rows h))
      ∙ (put_all-adds rows (l ++ a ∷ [])
            (subst (λ r. NoRepeat (map id r)) (sym (append_assoc a l rows)) h)
          ∙ append_assoc a l rows)

abbrev seeds : SeedDatabase
seeds = record {
  database = database;
  insert_groups = λ rows t. record t {
    groups = put_all group_key rows t.groups;
    groups_once = put_all-NoRepeat group_key rows t.groups t.groups_once;
  };
  insert_achievements = λ rows t. record t {
    achievements = put_all key rows t.achievements;
    once = put_all-NoRepeat key rows t.achievements t.once;
  };
  insert_badges = λ rows t. record t {
    badges = put_all badge_key rows t.badges;
    badges_once = put_all-NoRepeat badge_key rows t.badges t.badges_once;
  };
  groups-insert_groups = λ rows t h. put_all-adds group_key rows t.groups h;
  achievements-insert_achievements = λ rows t h k. put_all-adds key rows t.achievements h;
  badges-insert_badges = λ rows t h. put_all-adds badge_key rows t.badges h;
  achievements-insert_groups = λ rows t. refl;
  badges-insert_groups = λ rows t. refl;
  groups-insert_achievements = λ rows t. refl;
  badges-insert_achievements = λ rows t. refl;
  groups-insert_badges = λ rows t. refl;
  achievements-insert_badges = λ rows t. refl;
}

-- An older release left one group, which an administrator renamed.
abbrev tables : Tables
tables = record {
  groups = record { key = "spend"; name = "Big money"; sort_order = 1 } ∷ [];
  achievements = [];
  badges = [];
  once = tt;
  badges_once = tt;
  groups_once = (refl, tt);
}

on_module_init_adds_example :
    let u = on_module_init seeds tables in
    (u.groups ≡ tables.groups ++ missing_groups seeds tables)
    × (u.achievements ≡ tables.achievements ++ missing_achievements seeds tables)
    × (u.badges ≡ tables.badges ++ missing_badges seeds tables)
    × Subset (map group_seed_id default_achievement_groups) (map group_id u.groups)
    × Subset (map seed_id default_achievements) (map achievement_id u.achievements)
    × Subset (map badge_seed_id default_badges) (map badge_id u.badges)
    × (on_module_init seeds u ≡ u)
on_module_init_adds_example = on_module_init_adds seeds tables

abbrev requests : List (Bool × AdminRequest)
requests = (true, post_group "season" "Season" none) ∷ []

seeded_handle_all-IsResolved_example :
    IsResolved database (handle_all database requests (on_module_init seeds tables))
seeded_handle_all-IsResolved_example =
    seeded_handle_all-IsResolved seeds requests tables (record { of_rules = tt; of_badges = tt })
