-- ===== src/Loyalty/Tests/RuleRuns.antt =====
-- Runs of the rules and of their validator on concrete data.
use bumpa_achievement_system.Common.{◌≡◌, ◌↔◌, refl, true, none, some, [], ◌∷◌, arith}
use bumpa_achievement_system.Loyalty.Rules.{
  gte, AchievementRule, count, sum, combination, achievement_set, Rules, RuleContext, evaluate,
}
use bumpa_achievement_system.Loyalty.Rules.Meaning.{Holds, evaluate_iff}
use bumpa_achievement_system.Loyalty.Rules.Monotone.{Grows}
use bumpa_achievement_system.Loyalty.Rules.Shape.{
  absent, natural, negative, text, RuleFields, RuleValue, object, not_array,
  is_valid_achievement_rule_shape,
}
use bumpa_achievement_system.Loyalty.Rules.Shape.Forms.{HasShape}
use bumpa_achievement_system.Loyalty.Rules.Shape.Guard.{is_valid_achievement_rule_shape_iff}

-- Three purchases, 50,000 kobo, and two achievements.
abbrev early : RuleContext
early = record {
  purchase_count = 3;
  total_spend_kobo = 50000;
  unlocked_achievement_ids = some ("a1" ∷ "a2" ∷ []);
}

abbrev later : RuleContext
later = record {
  purchase_count = 4;
  total_spend_kobo = 60000;
  unlocked_achievement_ids = some ("a3" ∷ "a1" ∷ "a2" ∷ []);
}

abbrev rule : AchievementRule
rule = combination (
    Rules.cons (count gte 3) (
      Rules.cons (sum gte 50000)
        (Rules.cons (achievement_set ("a1" ∷ "a9" ∷ []) (some 1)) Rules.nil)))

rule-evaluate : evaluate rule early ≡ some true
unfolding evaluate
rule-evaluate = refl

evaluate_iff_example : (evaluate rule early ≡ some true) ↔ Holds early rule
evaluate_iff_example = evaluate_iff early rule

early-Grows : Grows early later
early-Grows = record {
  purchases = omega arith;
  spend = omega arith;
  unlocked = λ a h. ground (arith, h);
}

-- { type: 'COUNT', field: 'purchase_count', operator: 'GTE', value: 3 }
abbrev count_value : RuleValue
count_value =
    object
      (record {
        type = text "COUNT";
        field = text "purchase_count";
        operator = text "GTE";
        value = natural 3;
        min_required = absent;
        achievement_ids = none;
      })
      not_array

count_value-valid : is_valid_achievement_rule_shape count_value ≡ true
unfolding is_valid_achievement_rule_shape
count_value-valid = refl

is_valid_achievement_rule_shape_iff_example :
    (is_valid_achievement_rule_shape count_value ≡ true)
    ↔ ((r : AchievementRule) × HasShape count_value r)
is_valid_achievement_rule_shape_iff_example = is_valid_achievement_rule_shape_iff count_value

abbrev negative_set : RuleFields
negative_set = record {
  type = text "ACHIEVEMENT_SET";
  field = absent;
  operator = absent;
  value = absent;
  min_required = negative;
  achievement_ids = some (text "a1" ∷ []);
}
