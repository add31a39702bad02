-- ===== src/Loyalty/Badges/State.antt =====
-- The progress that a user is shown agrees with the test by which badges are awarded.
use bumpa_achievement_system.Common.{
  ℕ, ◌≡◌, ◌↔◌, String, true, not, some, List, [], ◌∷◌, map, arith, has, length, filter, all,
}
use bumpa_achievement_system.Loyalty.Badges.{
  BadgeConfig, meets_badge_requirement, next_badge, remaining_for, get_badge_state,
}

missing-zero :
    (unlocked ids : List String)
    → (length (filter (λ a. not (has unlocked a)) ids) ≡ 0) ↔ (all (has unlocked) ids ≡ true)
missing-zero unlocked [] = ground arith
missing-zero unlocked (i ∷ ids) =
    let (to, from) = missing-zero unlocked ids in
    (λ h. ground (arith, to), λ h. ground (arith, from))

remaining_for_zero :
    (b : BadgeConfig) (n : ℕ) (unlocked : List String)
    → (remaining_for (some b) n unlocked ≡ 0) ↔ (meets_badge_requirement b n unlocked ≡ true)
unfolding remaining_for meets_badge_requirement
remaining_for_zero b n unlocked =
    let (to, from) = missing-zero unlocked b.required_achievement_ids in
    (λ r. ground (arith, to), λ m. ground (arith, from))

-- The number shown as missing for the next badge is 0 exactly when the user meets its requirement.
pub remaining_zero_iff :
    (unlocked_badges badges : List BadgeConfig) (achievement_count : ℕ) (unlocked : List String)
    (b : BadgeConfig)
    → next_badge badges (map (λ (c : BadgeConfig). c.id) unlocked_badges) ≡ some b
    → ((get_badge_state unlocked_badges badges achievement_count
          unlocked).remaining_to_unlock_next_badge
        ≡ 0)
      ↔ (meets_badge_requirement b achievement_count unlocked ≡ true)
unfolding get_badge_state
remaining_zero_iff unlocked_badges badges n unlocked b h = simp h (remaining_for_zero b n unlocked)
