-- ===== src/Loyalty/Rules.antt =====
-- apps/loyalty-service/src/rules/rule.types.ts and rule-engine.service.ts: the rules that unlock
-- achievements, and their evaluation. Numbers are natural: a threshold that is negative or has a
-- fraction, which JSON admits, is left out (a rule treats it as 0 or as the next whole number).
pub mod Meaning
pub mod Monotone
pub mod Shape
use bumpa_achievement_system.Common.{
  ℕ, String, Bool, true, false, Option, none, some, List, [], leb, length, filter, has,
}

-- `operator` of a stored rule: 'GTE', or any other text.
pub data RuleOperator : Type 0 where
  gte other : RuleOperator

-- A stored rule. `broken` is a stored value on which the evaluation throws: its type is none of the
-- four, or the array that its type needs is missing.
mutual
  pub data AchievementRule : Type 0 where
    count : (operator : RuleOperator) (value : ℕ) → AchievementRule
    sum : (operator : RuleOperator) (value : ℕ) → AchievementRule
    combination : Rules → AchievementRule
    achievement_set : (achievement_ids : List String) (min_required : Option ℕ) → AchievementRule
    broken : AchievementRule

  pub data Rules : Type 0 where
    nil : Rules
    cons : AchievementRule → Rules → Rules

pub record RuleContext : Type 0 where
  pub purchase_count : ℕ
  pub total_spend_kobo : ℕ
  pub unlocked_achievement_ids : Option (List String)

-- RuleEngineService.compare
unfoldable pub compare : ℕ → ℕ → RuleOperator → Bool
compare actual expected gte = leb expected actual
compare actual expected other = false

-- `a ?? b`
abbrev pub or_else {ℓ} : {A : Type ℓ} → Option A → A → A
or_else none b = b
or_else (some a) b = a

-- How many entries of the list are in the set; a repeated entry counts each time.
unfoldable pub unlocked_required_count : List String → List String → ℕ
unlocked_required_count ids unlocked = length (filter (has unlocked) ids)

-- RuleEngineService.evaluate; `none` when it throws. `every` stops at the first child that is false.
unfoldable mutual
  unfolding compare unlocked_required_count

  pub evaluate : AchievementRule → RuleContext → Option Bool
  evaluate (count operator value) c = some (compare c.purchase_count value operator)
  evaluate (sum operator value) c = some (compare c.total_spend_kobo value operator)
  evaluate (combination rules) c = evaluate_every rules c
  evaluate (achievement_set ids min_required) c = some (
      leb (or_else min_required (length ids))
        (unlocked_required_count ids (or_else c.unlocked_achievement_ids [])))
  evaluate broken c = none

  pub evaluate_every : Rules → RuleContext → Option Bool
  evaluate_every nil c = some true
  evaluate_every (cons rule rules) c =
      let rest = evaluate_every rules c in
      elim (evaluate rule c) [ none ↦ none | some false ↦ some false | some true ↦ rest ]
