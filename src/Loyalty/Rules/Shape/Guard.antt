-- ===== src/Loyalty/Rules/Shape/Guard.antt =====
-- The validator as a type guard: what it accepts is a rule of rule.types.ts.
use mathlib.Core.Bool.{and-eq-true_iff}
use bumpa_achievement_system.Common.{
  ℕ, ◌≡◌, ◌↔◌, Bool, false, refl, true, Option, none, some, List, [], ◌∷◌, arith, eq_iff, String,
  map, all,
}
use bumpa_achievement_system.Loyalty.Rules.{
  AchievementRule, count, sum, combination, achievement_set, Rules, gte, RuleContext, evaluate,
  evaluate_every,
}
use bumpa_achievement_system.Loyalty.Rules.Shape.{
  Scalar, absent, natural, negative, not_finite, text, something, RuleFields, RuleValue, object,
  RuleArray, array, RuleValues, nil, cons, is_string, is_optional_number, is_id_list, Kind,
  is_count, is_sum, is_combination, is_set, unknown, kind_of, shape_case,
  is_valid_achievement_rule_shape, valid_array, valid_every, not_object, not_array,
}
use bumpa_achievement_system.Loyalty.Rules.Shape.Forms.{
  IsMinRequired, HasShape, HasArray, HaveShape, is_text-eq, threshold_value, id_list, least_of,
  all_of_them, at_least, below_zero, count_rule, sum_rule, combination_rule, set_rule, some_rules,
  no_more, one_more,
}

abbrev name_of : Kind → Option String
name_of is_count = some "COUNT"
name_of is_sum = some "SUM"
name_of is_combination = some "COMBINATION"
name_of is_set = some "ACHIEVEMENT_SET"
name_of unknown = none

kind-name : (s : Scalar) (t : String) (k : Kind) → kind_of s ≡ k → name_of k ≡ some t → s ≡ text t
unfolding kind_of
kind-name (text u) t k e n =
    ground
      (arith, eq_iff u "COUNT", eq_iff u "SUM", eq_iff u "COMBINATION", eq_iff u "ACHIEVEMENT_SET")
kind-name absent t k e n = ground arith
kind-name (natural m) t k e n = ground arith
kind-name negative t k e n = ground arith
kind-name not_finite t k e n = ground arith
kind-name something t k e n = ground arith

-- The checks of one case, taken apart.
module _ (f : RuleFields) (rs : RuleArray)
    (ok : valid_array rs ≡ true → (rules : Rules) × HasArray rs rules) where
  case_sound :
      (k : Kind)
      → kind_of f.type ≡ k
      → shape_case k f (valid_array rs) ≡ true
      → (r : AchievementRule) × HasShape (object f rs) r
  unfolding shape_case
  case_sound is_count e h =
      let (rest, valued) = (and-eq-true_iff _ _).0 h in
      let (named, compared) = (and-eq-true_iff _ _).0 rest in
      let (n, v) = threshold_value f.value valued in
      (
        count gte n,
        count_rule {n = n} (kind-name f.type "COUNT" is_count e refl)
            (is_text-eq f.field "purchase_count" named) (is_text-eq f.operator "GTE" compared) v,
      )
  case_sound is_sum e h =
      let (rest, valued) = (and-eq-true_iff _ _).0 h in
      let (named, compared) = (and-eq-true_iff _ _).0 rest in
      let (n, v) = threshold_value f.value valued in
      (
        sum gte n,
        sum_rule {n = n} (kind-name f.type "SUM" is_sum e refl)
            (is_text-eq f.field "total_spend_kobo" named) (is_text-eq f.operator "GTE" compared) v,
      )
  case_sound is_combination e h =
      let (joined, children) = (and-eq-true_iff _ _).0 h in
      let (rules, shape) = ok children in
      (
        combination rules,
        combination_rule {rules = rules} (kind-name f.type "COMBINATION" is_combination e refl)
            (is_text-eq f.operator "AND" joined) shape,
      )
  case_sound is_set e h =
      let (listed, numbered) = (and-eq-true_iff _ _).0 h in
      let (i, ids, v) = id_list f.achievement_ids listed in
      let (least, m) = least_of f.min_required numbered in
      (
        achievement_set (i ∷ ids) least,
        set_rule {i = i} {ids = ids} {least = least}
            (kind-name f.type "ACHIEVEMENT_SET" is_set e refl) v m,
      )
  case_sound unknown e h = cc

mutual
  unfolding is_valid_achievement_rule_shape

  shape_sound :
      (v : RuleValue)
      → is_valid_achievement_rule_shape v ≡ true
      → (r : AchievementRule) × HasShape v r
  shape_sound not_object h = cc
  shape_sound (object f rs) h = case_sound f rs (array_sound rs) (kind_of f.type) refl h

  array_sound : (a : RuleArray) → valid_array a ≡ true → (rules : Rules) × HasArray a rules
  array_sound not_array h = cc
  array_sound (array nil) h = cc
  array_sound (array (cons v vs)) h =
      let (here, later) = (and-eq-true_iff _ _).0 h in
      let (r, s) = shape_sound v here in
      let (rs, ss) = every_sound vs later in (Rules.cons r rs, some_rules {r = r} {rs = rs} s ss)

  every_sound : (vs : RuleValues) → valid_every vs ≡ true → (rules : Rules) × HaveShape vs rules
  every_sound nil h = (Rules.nil, no_more)
  every_sound (cons v vs) h =
      let (here, later) = (and-eq-true_iff _ _).0 h in
      let (r, s) = shape_sound v here in
      let (rs, ss) = every_sound vs later in (Rules.cons r rs, one_more {r = r} {rs = rs} s ss)

all-is_string : (ids : List String) → all is_string (map text ids) ≡ true
all-is_string [] = refl
all-is_string (i ∷ ids) = all-is_string ids

optional_number : {s : Scalar} {l : Option ℕ} → IsMinRequired s l → is_optional_number s ≡ true
optional_number all_of_them = refl
optional_number (at_least n) = refl
optional_number below_zero = refl

mutual
  unfolding is_valid_achievement_rule_shape

  shape_complete :
      {v : RuleValue} {r : AchievementRule}
      → HasShape v r
      → is_valid_achievement_rule_shape v ≡ true
  shape_complete (count_rule t f o v) = rw (t, f, o, v)
  shape_complete (sum_rule t f o v) = rw (t, f, o, v)
  shape_complete (combination_rule t o a) = rw (t, o, array_complete a)
  shape_complete (set_rule {ids} t i m) = rw (t, i, all-is_string ids, optional_number m)

  array_complete : {a : RuleArray} {rules : Rules} → HasArray a rules → valid_array a ≡ true
  array_complete (some_rules s ss) = rw (shape_complete s, every_complete ss)

  every_complete : {vs : RuleValues} {rules : Rules} → HaveShape vs rules → valid_every vs ≡ true
  every_complete no_more = refl
  every_complete (one_more s ss) = rw (shape_complete s, every_complete ss)

-- The validator accepts exactly the JSON forms of the rules of rule.types.ts: each type with its own
-- field and operator literals, thresholds that are not negative, and lists that are not empty.
pub is_valid_achievement_rule_shape_iff :
    (v : RuleValue)
    → (is_valid_achievement_rule_shape v ≡ true) ↔ ((r : AchievementRule) × HasShape v r)
is_valid_achievement_rule_shape_iff v = (shape_sound v, λ p. shape_complete p.1)

cons_total :
    (c : RuleContext) (r : AchievementRule) (rs : Rules)
    → ((b : Bool) × (evaluate r c ≡ some b))
    → ((b : Bool) × (evaluate_every rs c ≡ some b))
    → (b : Bool) × (evaluate_every (Rules.cons r rs) c ≡ some b)
unfolding evaluate
cons_total c r rs (true, e) (b, f) = (b, ground arith)
cons_total c r rs (false, e) (b, f) = (false, ground arith)

mutual
  unfolding evaluate

  shape_total :
      (c : RuleContext) {v : RuleValue} {r : AchievementRule}
      → HasShape v r
      → (b : Bool) × (evaluate r c ≡ some b)
  shape_total c (count_rule {n} t f o v) = (_, refl)
  shape_total c (sum_rule {n} t f o v) = (_, refl)
  shape_total c (combination_rule t o a) = array_total c a
  shape_total c (set_rule {i} {ids} t e m) = (_, refl)

  array_total :
      (c : RuleContext) {a : RuleArray} {rules : Rules}
      → HasArray a rules
      → (b : Bool) × (evaluate_every rules c ≡ some b)
  array_total c (some_rules {r} {rs} s ss) = cons_total c r rs (shape_total c s) (every_total c ss)

  every_total :
      (c : RuleContext) {vs : RuleValues} {rules : Rules}
      → HaveShape vs rules
      → (b : Bool) × (evaluate_every rules c ≡ some b)
  every_total c no_more = (true, refl)
  every_total c (one_more {r} {rs} s ss) = cons_total c r rs (shape_total c s) (every_total c ss)

-- A rule that the validator accepts is evaluated without throwing, whatever the statistics: the
-- value is a rule of the engine, and the engine answers true or false on it.
pub accepted_evaluates :
    (v : RuleValue) (c : RuleContext)
    → is_valid_achievement_rule_shape v ≡ true
    → (r : AchievementRule) × HasShape v r × (b : Bool) × (evaluate r c ≡ some b)
accepted_evaluates v c h =
    let (r, s) = shape_sound v h in let (b, e) = shape_total c s in (r, s, b, e)

-- A negative minRequired passes the validator, and the rule is then met by every user, whatever the
-- listed achievements: unlike COUNT and SUM, the set rule has no check against negative numbers.
pub negative_min_required_accepted :
    (f : RuleFields) (rs : RuleArray)
    → f.type ≡ text "ACHIEVEMENT_SET"
    → is_id_list f.achievement_ids ≡ true
    → f.min_required ≡ negative
    → (is_valid_achievement_rule_shape (object f rs) ≡ true)
      × (r : AchievementRule) × HasShape (object f rs) r
      × ((c : RuleContext) → evaluate r c ≡ some true)
unfolding is_valid_achievement_rule_shape evaluate
negative_min_required_accepted f rs t l m =
    let (i, ids, e) = id_list f.achievement_ids l in
    (
      rw (t, l, m),
      achievement_set (i ∷ ids) (some 0),
      set_rule {i = i} {ids = ids} {least = some 0} t e (rw m below_zero),
      λ c. ground arith,
    )
