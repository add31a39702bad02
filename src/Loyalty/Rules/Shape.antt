-- ===== src/Loyalty/Rules/Shape.antt =====
-- apps/loyalty-service/src/rules/rule-shape.validator.ts: what the admin API accepts as a rule.
-- A value is seen through the properties that the validator reads.
pub mod Forms
pub mod Guard
use bumpa_achievement_system.Common.{
  ℕ, String, Bool, true, false, Option, none, some, List, [], ◌∷◌, ◌&&◌, ◌==◌, if◌then◌else◌, all,
}

-- A property that is no array. `negative` is a finite number below 0, `not_finite` NaN or ∞.
pub data Scalar : Type 0 where
  absent : Scalar
  natural : ℕ → Scalar
  negative not_finite : Scalar
  text : String → Scalar
  something : Scalar

pub record RuleFields : Type 0 where
  pub type : Scalar
  pub field : Scalar
  pub operator : Scalar
  pub value : Scalar
  pub min_required : Scalar
  pub achievement_ids : Option (List Scalar)  -- `none` if it is no array

mutual
  pub data RuleValue : Type 0 where
    not_object : RuleValue
    object : RuleFields → RuleArray → RuleValue

  -- The property `rules`.
  pub data RuleArray : Type 0 where
    not_array : RuleArray
    array : RuleValues → RuleArray

  pub data RuleValues : Type 0 where
    nil : RuleValues
    cons : RuleValue → RuleValues → RuleValues

-- `scalar === 'text'`
abbrev pub is_text : Scalar → String → Bool
is_text (text s) t = s == t
is_text _ t = false

-- typeof value === 'number' && Number.isFinite(value) && value >= 0
abbrev pub is_threshold : Scalar → Bool
is_threshold (natural n) = true
is_threshold _ = false

abbrev pub is_string : Scalar → Bool
is_string (text s) = true
is_string _ = false

-- value === undefined || (typeof value === 'number' && Number.isFinite(value))
abbrev pub is_optional_number : Scalar → Bool
is_optional_number absent = true
is_optional_number (natural n) = true
is_optional_number negative = true
is_optional_number _ = false

-- Array.isArray(ids) && ids.length > 0 && ids.every((id) => typeof id === 'string')
abbrev pub is_id_list : Option (List Scalar) → Bool
is_id_list none = false
is_id_list (some []) = false
is_id_list (some (i ∷ ids)) = all is_string (i ∷ ids)

pub data Kind : Type 0 where
  is_count is_sum is_combination is_set unknown : Kind

-- The `switch` on `rule.type`.
kind_of : Scalar → Kind
kind_of (text t) =
    if t == "COUNT"
    then is_count
    else if t == "SUM"
    then is_sum
    else if t == "COMBINATION"
    then is_combination
    else if t == "ACHIEVEMENT_SET"
    then is_set
    else unknown
kind_of _ = unknown

-- The cases of the `switch`; the third argument is the check of the array `rules`.
shape_case : Kind → RuleFields → Bool → Bool
shape_case is_count f children =
    is_text f.field "purchase_count" && is_text f.operator "GTE" && is_threshold f.value
shape_case is_sum f children =
    is_text f.field "total_spend_kobo" && is_text f.operator "GTE" && is_threshold f.value
shape_case is_combination f children = is_text f.operator "AND" && children
shape_case is_set f children = is_id_list f.achievement_ids && is_optional_number f.min_required
shape_case unknown f children = false

-- isValidAchievementRuleShape
unfoldable mutual
  unfolding shape_case kind_of

  pub is_valid_achievement_rule_shape : RuleValue → Bool
  is_valid_achievement_rule_shape not_object = false
  is_valid_achievement_rule_shape (object f rules) =
      shape_case (kind_of f.type) f (valid_array rules)

  -- Array.isArray(rules) && rules.length > 0 && rules.every(isValidAchievementRuleShape)
  pub valid_array : RuleArray → Bool
  valid_array not_array = false
  valid_array (array nil) = false
  valid_array (array (cons r rs)) = is_valid_achievement_rule_shape r && valid_every rs

  pub valid_every : RuleValues → Bool
  valid_every nil = true
  valid_every (cons r rs) = is_valid_achievement_rule_shape r && valid_every rs
