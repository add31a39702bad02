-- ===== src/Loyalty/Rules/Shape/Forms.antt =====
-- The JSON forms of the rules of rule.types.ts, and what the checks of the validator find.
use bumpa_achievement_system.Common.{
  ℕ, ◌≡◌, refl, ap, true, Option, none, some, List, [], ◌∷◌, eq_iff, String, map, all,
}
use bumpa_achievement_system.Loyalty.Rules.{
  AchievementRule, count, sum, combination, achievement_set, Rules, gte,
}
use bumpa_achievement_system.Loyalty.Rules.Shape.{
  Scalar, absent, natural, negative, not_finite, text, something, RuleFields, RuleValue, object,
  RuleArray, array, RuleValues, nil, cons, is_text, is_threshold, is_string, is_optional_number,
  is_id_list,
}

-- `minRequired` as the evaluation uses it: below 0 it asks for nothing, as 0 does.
pub data IsMinRequired : Scalar → Option ℕ → Type 0 where
  all_of_them : IsMinRequired absent none
  at_least : (n : ℕ) → IsMinRequired (natural n) (some n)
  below_zero : IsMinRequired negative (some 0)

-- The value is the rule: the interface of its type, with its literals, and no empty list.
mutual
  pub data HasShape : RuleValue → AchievementRule → Type 0 where
    count_rule :
        {f : RuleFields} {rs : RuleArray} {n : ℕ}
        → f.type ≡ text "COUNT"
        → f.field ≡ text "purchase_count"
        → f.operator ≡ text "GTE"
        → f.value ≡ natural n
        → HasShape (object f rs) (count gte n)
    sum_rule :
        {f : RuleFields} {rs : RuleArray} {n : ℕ}
        → f.type ≡ text "SUM"
        → f.field ≡ text "total_spend_kobo"
        → f.operator ≡ text "GTE"
        → f.value ≡ natural n
        → HasShape (object f rs) (sum gte n)
    combination_rule :
        {f : RuleFields} {rs : RuleArray} {rules : Rules}
        → f.type ≡ text "COMBINATION"
        → f.operator ≡ text "AND"
        → HasArray rs rules
        → HasShape (object f rs) (combination rules)
    set_rule :
        {f : RuleFields} {rs : RuleArray} {i : String} {ids : List String} {least : Option ℕ}
        → f.type ≡ text "ACHIEVEMENT_SET"
        → f.achievement_ids ≡ some (map text (i ∷ ids))
        → IsMinRequired f.min_required least
        → HasShape (object f rs) (achievement_set (i ∷ ids) least)

  pub data HasArray : RuleArray → Rules → Type 0 where
    some_rules :
        {v : RuleValue} {vs : RuleValues} {r : AchievementRule} {rs : Rules}
        → HasShape v r
        → HaveShape vs rs
        → HasArray (array (cons v vs)) (Rules.cons r rs)

  pub data HaveShape : RuleValues → Rules → Type 0 where
    no_more : HaveShape nil Rules.nil
    one_more :
        {v : RuleValue} {vs : RuleValues} {r : AchievementRule} {rs : Rules}
        → HasShape v r
        → HaveShape vs rs
        → HaveShape (cons v vs) (Rules.cons r rs)

pub is_text-eq : (s : Scalar) (t : String) → is_text s t ≡ true → s ≡ text t
is_text-eq (text s) t h = ap text ((eq_iff s t).0 h)
is_text-eq absent t h = cc
is_text-eq (natural n) t h = cc
is_text-eq negative t h = cc
is_text-eq not_finite t h = cc
is_text-eq something t h = cc

pub threshold_value : (s : Scalar) → is_threshold s ≡ true → (n : ℕ) × (s ≡ natural n)
threshold_value (natural n) h = (n, refl)
threshold_value absent h = cc
threshold_value (text t) h = cc
threshold_value negative h = cc
threshold_value not_finite h = cc
threshold_value something h = cc

strings : (xs : List Scalar) → all is_string xs ≡ true → (ids : List String) × (xs ≡ map text ids)
strings [] h = ([], refl)
strings (text t ∷ xs) h = let (ids, e) = strings xs h in (t ∷ ids, ap (λ r. text t ∷ r) e)
strings (absent ∷ xs) h = cc
strings (natural n ∷ xs) h = cc
strings (negative ∷ xs) h = cc
strings (not_finite ∷ xs) h = cc
strings (something ∷ xs) h = cc

pub id_list :
    (xs : Option (List Scalar))
    → is_id_list xs ≡ true
    → (i : String) × (ids : List String) × (xs ≡ some (map text (i ∷ ids)))
id_list none h = cc
id_list (some []) h = cc
id_list (some (text t ∷ xs)) h =
    let (ids, e) = strings xs h in (t, ids, ap (λ r. some (text t ∷ r)) e)
id_list (some (absent ∷ xs)) h = cc
id_list (some (natural n ∷ xs)) h = cc
id_list (some (negative ∷ xs)) h = cc
id_list (some (not_finite ∷ xs)) h = cc
id_list (some (something ∷ xs)) h = cc

pub least_of : (s : Scalar) → is_optional_number s ≡ true → (l : Option ℕ) × IsMinRequired s l
least_of absent h = (none, all_of_them)
least_of (natural n) h = (some n, at_least n)
least_of negative h = (some 0, below_zero)
least_of not_finite h = cc
least_of (text t) h = cc
least_of something h = cc
