-- ===== src/Loyalty/Admin/Named.antt =====
-- The achievements that a rule names, and those that the code collects from it.
use mathlib.Core.Bool.{and-eq-true_iff}
use bumpa_achievement_system.Loyalty.Rules.{
  RuleOperator, AchievementRule, count, sum, combination, achievement_set, broken, Rules, nil, cons,
}
use bumpa_achievement_system.Common.{
  ℕ, Option, ◌++◌, ◌≡◌, refl, String, true, List, [], ◌∷◌, has, all, arith, Subset,
}
use bumpa_achievement_system.Loyalty.Admin.{collect_achievement_set_ids, collect_each}

-- Every name of the list is one of the set.
abbrev pub IsIn : List String → List String → Type 0
IsIn ids l = all (has ids) l ≡ true

pub IsIn-Subset : (xs ys l : List String) → Subset xs ys → IsIn xs l → IsIn ys l
IsIn-Subset xs ys [] s h = refl
IsIn-Subset xs ys (a ∷ l) s h = ground (arith, s a, IsIn-Subset xs ys l s)

-- A rule, at any depth, names achievements of the set alone.
mutual
  pub data RuleNamesIn (ids : List String) : AchievementRule → Type 0 where
    by_count : {operator : RuleOperator} {n : ℕ} → RuleNamesIn ids (count operator n)
    by_sum : {operator : RuleOperator} {n : ℕ} → RuleNamesIn ids (sum operator n)
    by_children : {rules : Rules} → RulesNameIn ids rules → RuleNamesIn ids (combination rules)
    by_set :
        {named : List String} {least : Option ℕ}
        → IsIn ids named
        → RuleNamesIn ids (achievement_set named least)
    by_nothing : RuleNamesIn ids broken

  pub data RulesNameIn (ids : List String) : Rules → Type 0 where
    none_left : RulesNameIn ids nil
    one_more :
        {rule : AchievementRule} {rules : Rules}
        → RuleNamesIn ids rule
        → RulesNameIn ids rules
        → RulesNameIn ids (cons rule rules)

IsIn-append : (ids xs ys : List String) → IsIn ids (xs ++ ys) → IsIn ids xs × IsIn ids ys
IsIn-append ids [] ys h = (refl, h)
IsIn-append ids (x ∷ xs) ys h =
    let (own, rest) = (and-eq-true_iff (has ids x) (all (has ids) (xs ++ ys))).0 h in
    let (first, second) = IsIn-append ids xs ys rest in (ground (arith, own, first), second)

-- The identifiers that the code collects are all that a rule names.
mutual
  unfolding collect_achievement_set_ids

  pub collected-RuleNamesIn :
      (ids : List String) (r : AchievementRule)
      → IsIn ids (collect_achievement_set_ids r)
      → RuleNamesIn ids r
  collected-RuleNamesIn ids (count operator n) h = by_count
  collected-RuleNamesIn ids (sum operator n) h = by_sum
  collected-RuleNamesIn ids (combination rules) h = by_children (collected-RulesNameIn ids rules h)
  collected-RuleNamesIn ids (achievement_set named least) h = by_set h
  collected-RuleNamesIn ids broken h = by_nothing

  collected-RulesNameIn :
      (ids : List String) (rs : Rules) → IsIn ids (collect_each rs) → RulesNameIn ids rs
  collected-RulesNameIn ids nil h = none_left
  collected-RulesNameIn ids (cons r rs) h =
      let (first, rest) = IsIn-append ids (collect_achievement_set_ids r) (collect_each rs) h in
      one_more (collected-RuleNamesIn ids r first) (collected-RulesNameIn ids rs rest)

mutual
  pub RuleNamesIn-Subset :
      (xs ys : List String) {r : AchievementRule}
      → Subset xs ys
      → RuleNamesIn xs r
      → RuleNamesIn ys r
  RuleNamesIn-Subset xs ys s by_count = by_count
  RuleNamesIn-Subset xs ys s by_sum = by_sum
  RuleNamesIn-Subset xs ys s (by_children h) = by_children (RulesNameIn-Subset xs ys s h)
  RuleNamesIn-Subset xs ys s (by_set h) = by_set (IsIn-Subset xs ys _ s h)
  RuleNamesIn-Subset xs ys s by_nothing = by_nothing

  RulesNameIn-Subset :
      (xs ys : List String) {rs : Rules} → Subset xs ys → RulesNameIn xs rs → RulesNameIn ys rs
  RulesNameIn-Subset xs ys s none_left = none_left
  RulesNameIn-Subset xs ys s (one_more h hs) =
      one_more (RuleNamesIn-Subset xs ys s h) (RulesNameIn-Subset xs ys s hs)
