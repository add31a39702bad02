-- ===== src/Loyalty/Rules/Meaning.antt =====
-- What a rule means, apart from the order in which it is evaluated.
use mathlib.Core.Path.{subst}
use bumpa_achievement_system.Common.{
  ℕ, ◌+◌, ◌≤◌, String, ◌≡◌, refl, ◌↔◌, true, false, Option, none, some, List, [], ◌∷◌, arith,
  length, has, Bool-cases, inl, inr,
}
use bumpa_achievement_system.Loyalty.Rules.{
  gte, other, AchievementRule, count, sum, combination, achievement_set, broken, Rules, nil, cons,
  RuleContext, compare, or_else, unlocked_required_count, evaluate, evaluate_every,
}

-- That many entries of the list are in the set; a repeated entry counts each time.
pub data Unlocked (set : List String) : List String → ℕ → Type 0 where
  nothing_listed : Unlocked set [] 0
  counted :
      {id : String} {ids : List String} {n : ℕ}
      → has set id ≡ true
      → Unlocked set ids n
      → Unlocked set (id ∷ ids) (n + 1)
  passed_over :
      {id : String} {ids : List String} {n : ℕ}
      → has set id ≡ false
      → Unlocked set ids n
      → Unlocked set (id ∷ ids) n

-- The achievements that the context lists as unlocked.
abbrev pub unlocked_in : Option (List String) → List String
unlocked_in none = []
unlocked_in (some ids) = ids

-- The user qualifies by the rule.
mutual
  pub data Holds (c : RuleContext) : AchievementRule → Type 0 where
    enough_purchases : {n : ℕ} → n ≤ c.purchase_count → Holds c (count gte n)
    enough_spend : {n : ℕ} → n ≤ c.total_spend_kobo → Holds c (sum gte n)
    every : {rules : Rules} → HoldEvery c rules → Holds c (combination rules)
    enough_unlocked :
        {ids : List String} {least n : ℕ}
        → Unlocked (unlocked_in c.unlocked_achievement_ids) ids n
        → least ≤ n
        → Holds c (achievement_set ids (some least))
    all_unlocked :
        {ids : List String} {n : ℕ}
        → Unlocked (unlocked_in c.unlocked_achievement_ids) ids n
        → length ids ≤ n
        → Holds c (achievement_set ids none)

  pub data HoldEvery (c : RuleContext) : Rules → Type 0 where
    done : HoldEvery c nil
    more :
        {rule : AchievementRule} {rules : Rules}
        → Holds c rule
        → HoldEvery c rules
        → HoldEvery c (cons rule rules)

unlocked_in-or_else : (o : Option (List String)) → or_else o [] ≡ unlocked_in o
unlocked_in-or_else none = refl
unlocked_in-or_else (some ids) = refl

unlocked_required_count-Unlocked :
    (set ids : List String) → Unlocked set ids (unlocked_required_count ids set)
unfolding unlocked_required_count
unlocked_required_count-Unlocked set [] = nothing_listed
unlocked_required_count-Unlocked set (id ∷ ids) = elim (Bool-cases (has set id)) [
  | inl found ↦
      subst (Unlocked set (id ∷ ids)) (simp found (omega arith))
        (counted found (unlocked_required_count-Unlocked set ids))
  | inr lost ↦
      subst (Unlocked set (id ∷ ids)) (simp lost)
        (passed_over lost (unlocked_required_count-Unlocked set ids))
]

Unlocked-unlocked_required_count :
    (set : List String) {ids : List String} {n : ℕ}
    → Unlocked set ids n
    → unlocked_required_count ids set ≡ n
unfolding unlocked_required_count
Unlocked-unlocked_required_count set nothing_listed = refl
Unlocked-unlocked_required_count set (counted found u) =
    simp found (omega (arith, Unlocked-unlocked_required_count set u))
Unlocked-unlocked_required_count set (passed_over lost u) =
    simp lost (Unlocked-unlocked_required_count set u)

mutual
  unfolding evaluate compare

  evaluate_sound : (c : RuleContext) (r : AchievementRule) → evaluate r c ≡ some true → Holds c r
  evaluate_sound c (count gte n) h = enough_purchases (ground arith)
  evaluate_sound c (count other n) h = cc
  evaluate_sound c (sum gte n) h = enough_spend (ground arith)
  evaluate_sound c (sum other n) h = cc
  evaluate_sound c (combination rules) h = every (evaluate_every_sound c rules h)
  evaluate_sound c (achievement_set ids (some least)) h =
      enough_unlocked
        (unlocked_required_count-Unlocked (unlocked_in c.unlocked_achievement_ids) ids)
        (ground (arith, unlocked_in-or_else c.unlocked_achievement_ids))
  evaluate_sound c (achievement_set ids none) h =
      all_unlocked (unlocked_required_count-Unlocked (unlocked_in c.unlocked_achievement_ids) ids)
        (ground (arith, unlocked_in-or_else c.unlocked_achievement_ids))
  evaluate_sound c broken h = cc

  evaluate_every_sound :
      (c : RuleContext) (rs : Rules) → evaluate_every rs c ≡ some true → HoldEvery c rs
  evaluate_every_sound c nil h = done
  evaluate_every_sound c (cons r rs) h =
      more (evaluate_sound c r (ground arith)) (evaluate_every_sound c rs (ground arith))

mutual
  unfolding evaluate compare

  evaluate_complete : (c : RuleContext) {r : AchievementRule} → Holds c r → evaluate r c ≡ some true
  evaluate_complete c (enough_purchases h) = ground arith
  evaluate_complete c (enough_spend h) = ground arith
  evaluate_complete c (every h) = evaluate_every_complete c h
  evaluate_complete c (enough_unlocked u h) = ground (
    arith,
    unlocked_in-or_else c.unlocked_achievement_ids,
    Unlocked-unlocked_required_count (unlocked_in c.unlocked_achievement_ids) u,
  )
  evaluate_complete c (all_unlocked u h) = ground (
    arith,
    unlocked_in-or_else c.unlocked_achievement_ids,
    Unlocked-unlocked_required_count (unlocked_in c.unlocked_achievement_ids) u,
  )

  evaluate_every_complete :
      (c : RuleContext) {rs : Rules} → HoldEvery c rs → evaluate_every rs c ≡ some true
  evaluate_every_complete c done = refl
  evaluate_every_complete c (more h hs) =
      ground (arith, evaluate_complete c h, evaluate_every_complete c hs)

-- The engine answers true exactly for the rules by which the user qualifies: COUNT and SUM compare
-- the statistic of their type, ACHIEVEMENT_SET counts the listed achievements that are unlocked
-- against minRequired (all of them when it is absent), and COMBINATION needs each child.
pub evaluate_iff : (c : RuleContext) (r : AchievementRule) → (evaluate r c ≡ some true) ↔ Holds c r
evaluate_iff c r = (evaluate_sound c r, evaluate_complete c)
