-- ===== src/Loyalty/Available/Groups.antt =====
-- apps/loyalty-service/src/loyalty/loyalty.service.ts: the groups of `getAchievementState` and what
-- it offers from each.
use mathlib.Core.List.{append-nil, append_assoc}
use bumpa_achievement_system.Common.{
  ◌≡◌, refl, sym, ap, ◌∙◌, String, true, false, List, [], ◌∷◌, ◌++◌, ◌==◌, eq_iff, filter,
  if◌then◌else◌, has, not, find, ◌&&◌, some, none, Option, map, Bool-cases, inl, inr, arith,
}
use bumpa_achievement_system.Loyalty.Unlock.{AchievementConfig}
use bumpa_achievement_system.Loyalty.Available.{
  Group, group_of, add_to_group, group_configs, first_locked, first_of_each, with_first,
  UnlockedAchievement, ids_of, get_achievement_state,
}
use bumpa_achievement_system.Loyalty.Badges.{BadgeConfig}
use text.Mathlib.TextPositions.{eq_refl}

group_of-add_to_group :
    (k : String) (c : AchievementConfig) (gs : List Group)
    → group_of k (add_to_group c gs)
      ≡ (if c.group_key == k then group_of k gs ++ c ∷ [] else group_of k gs)
unfolding group_of add_to_group
group_of-add_to_group k c [] = refl
group_of-add_to_group k c (g ∷ gs) = ground (
  arith,
  group_of-add_to_group k c gs,
  eq_iff g.key c.group_key,
  eq_iff g.key k,
  eq_iff c.group_key k,
)

pub in_group : String → List AchievementConfig → List AchievementConfig
in_group k cs = filter (λ (c : AchievementConfig). c.group_key == k) cs

pub group_of-group_configs :
    (k : String) (cs : List AchievementConfig) (gs : List Group)
    → group_of k (group_configs cs gs) ≡ group_of k gs ++ in_group k cs
unfolding group_configs in_group
group_of-group_configs k [] gs = sym (append-nil (group_of k gs))
group_of-group_configs k (c ∷ cs) gs =
    let later = group_of-group_configs k cs (add_to_group c gs) in
    let added = group_of-add_to_group k c gs in
    elim (Bool-cases (c.group_key == k)) [
      | inl h ↦ simp (later, added, h, append_assoc)
      | inr h ↦ simp (later, added, h)
    ]

pub first_locked-filter :
    (unlocked : List String) (k : String) (cs : List AchievementConfig)
    → first_locked unlocked (in_group k cs)
      ≡ find (λ (c : AchievementConfig). (c.group_key == k) && not (has unlocked c.id)) cs
unfolding first_locked in_group
first_locked-filter unlocked k [] = refl
first_locked-filter unlocked k (c ∷ cs) = ground (arith, first_locked-filter unlocked k cs)

with_first-has :
    (o : Option AchievementConfig) (rest : List AchievementConfig) (c : AchievementConfig)
    → has (map (λ (d : AchievementConfig). d.name) rest) c.name ≡ true
    → has (map (λ (d : AchievementConfig). d.name) (with_first o rest)) c.name ≡ true
with_first-has none rest c h = h
with_first-has (some d) rest c h = ground (arith, h)

first_of_each-has :
    (unlocked : List String) (k : String) (gs : List Group) (c : AchievementConfig)
    → first_locked unlocked (group_of k gs) ≡ some c
    → has (map (λ (d : AchievementConfig). d.name) (first_of_each unlocked gs)) c.name ≡ true
unfolding first_locked group_of first_of_each
first_of_each-has unlocked k [] c h = cc h
first_of_each-has unlocked k (g ∷ gs) c h = elim (Bool-cases (g.key == k)) [
  | inl here ↦ simp (the_first here, eq_refl c.name)
  | inr there ↦
      with_first-has (first_locked unlocked g.members) (first_of_each unlocked gs) c
        (first_of_each-has unlocked k gs c (a_later there))
]
  where
    the_first : g.key == k ≡ true → first_locked unlocked g.members ≡ some c
    the_first here = cc (simp here at h)

    a_later : g.key == k ≡ false → first_locked unlocked (group_of k gs) ≡ some c
    a_later there = cc (simp there at h)

-- The first achievement of a group, in the order of the configurations, that the user has not
-- unlocked is among the achievements that the state offers next, whichever the group.
get_achievement_state_offers :
    (rows : List UnlockedAchievement) (configs : List AchievementConfig)
    (unlocked_badges badges : List BadgeConfig) (k : String) (c : AchievementConfig)
    → find (λ (d : AchievementConfig). (d.group_key == k) && not (has (ids_of rows) d.id)) configs
      ≡ some c
    → has
        (get_achievement_state rows configs unlocked_badges badges).next_available_achievements
        c.name
      ≡ true
unfolding get_achievement_state group_of
get_achievement_state_offers rows configs unlocked_badges badges k c h =
    first_of_each-has (ids_of rows) k (group_configs configs []) c (
      ap (first_locked (ids_of rows)) (group_of-group_configs k configs [])
      ∙ first_locked-filter (ids_of rows) k configs
      ∙ h)
