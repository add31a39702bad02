-- ===== src/Loyalty/Rules/Monotone.antt =====
-- More purchases, more spend and more unlocked achievements never undo a rule.
use bumpa_achievement_system.Common.{◌≤◌, ◌≡◌, refl, true, some, [], arith, Subset, filter-has_mono}
use bumpa_achievement_system.Loyalty.Rules.{
  gte, other, AchievementRule, count, sum, combination, achievement_set, broken, Rules, nil, cons,
  RuleContext, compare, or_else, unlocked_required_count, evaluate, evaluate_every,
}

-- The second context is the later one.
pub record Grows (c c' : RuleContext) : Type 0 where
  pub purchases : c.purchase_count ≤ c'.purchase_count
  pub spend : c.total_spend_kobo ≤ c'.total_spend_kobo
  pub unlocked :
      Subset (or_else c.unlocked_achievement_ids []) (or_else c'.unlocked_achievement_ids [])

mutual
  unfolding evaluate compare unlocked_required_count

  grow :
      (c c' : RuleContext) (g : Grows c c') (r : AchievementRule)
      → evaluate r c ≡ some true
      → evaluate r c' ≡ some true
  grow c c' g (count gte n) h = ground arith
  grow c c' g (count other n) h = cc
  grow c c' g (sum gte n) h = ground arith
  grow c c' g (sum other n) h = cc
  grow c c' g (combination rules) h = grow_every c c' g rules h
  grow c c' g (achievement_set ids least) h = ground (
    arith,
    filter-has_mono ids (or_else c.unlocked_achievement_ids [])
        (or_else c'.unlocked_achievement_ids []) g.unlocked,
  )
  grow c c' g broken h = cc

  grow_every :
      (c c' : RuleContext) (g : Grows c c') (rs : Rules)
      → evaluate_every rs c ≡ some true
      → evaluate_every rs c' ≡ some true
  grow_every c c' g nil h = refl
  grow_every c c' g (cons r rs) h = ground (arith, grow c c' g r, grow_every c c' g rs)

-- A rule that a user meets stays met as the statistics and the unlocked set grow.
pub evaluate_mono :
    (c c' : RuleContext) (r : AchievementRule)
    → Grows c c'
    → evaluate r c ≡ some true
    → evaluate r c' ≡ some true
evaluate_mono c c' r g = grow c c' g r
