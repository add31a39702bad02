-- ===== src/Loyalty/Available/Next.antt =====
-- What the state offers next, exactly.
use bumpa_achievement_system.Common.{
  ◌≡◌, refl, sym, ap, ◌∙◌, String, Bool, true, List, [], ◌∷◌, ◌++◌, ◌==◌, eq_iff, filter,
  if◌then◌else◌, has, has-append, not, find, ◌&&◌, Option, map, Bool-cases, inl, inr, arith,
  NoRepeat,
}
use bumpa_achievement_system.Common.Keyed.{dedup, dedup-NoRepeat}
use mathlib.Core.Path.{subst}
use mathlib.Core.List.{append-nil, append_assoc}
use bumpa_achievement_system.Loyalty.Unlock.{AchievementConfig}
use bumpa_achievement_system.Loyalty.Badges.{BadgeConfig}
use bumpa_achievement_system.Loyalty.Available.{
  Group, group_of, add_to_group, group_configs, first_locked, first_of_each, with_first,
  UnlockedAchievement, ids_of, get_achievement_state,
}
use bumpa_achievement_system.Loyalty.Available.Groups.{group_of-group_configs, first_locked-filter}

filter-filter :
    (p q : String → Bool) (l : List String) → filter p (filter q l) ≡ filter (λ a. q a && p a) l
filter-filter p q [] = refl
filter-filter p q (a ∷ l) = elim (Bool-cases (q a)) [
  | inl y ↦ simp y (elim (Bool-cases (p a)) [
    | inl z ↦ simp z (ap (λ r. a ∷ r) (filter-filter p q l))
    | inr z ↦ simp z (filter-filter p q l)
  ])
  | inr n ↦ simp n (filter-filter p q l)
]

filter_agree :
    (p q : String → Bool) (l : List String) → ((a : String) → p a ≡ q a) → filter p l ≡ filter q l
filter_agree p q [] h = refl
filter_agree p q (a ∷ l) h = elim (Bool-cases (p a)) [
  | inl y ↦ simp (y, sym (h a) ∙ y) (ap (λ r. a ∷ r) (filter_agree p q l h))
  | inr n ↦ simp (n, sym (h a) ∙ n) (filter_agree p q l h)
]

abbrev group_key : Group → String
group_key g = g.key

abbrev pub key_of : AchievementConfig → String
key_of c = c.group_key

abbrev add_key : String → List String → List String
add_key k ks = if has ks k then ks else ks ++ k ∷ []

add_to_group_keys :
    (c : AchievementConfig) (gs : List Group)
    → map group_key (add_to_group c gs) ≡ add_key c.group_key (map group_key gs)
unfolding add_to_group
add_to_group_keys c [] = refl
add_to_group_keys c (g ∷ gs) = elim (Bool-cases (g.key == c.group_key)) [
  | inl same ↦ simp same refl
  | inr other ↦ elim (Bool-cases (has (map group_key gs) c.group_key)) [
    | inl there ↦ simp (other, add_to_group_keys c gs, there) refl
    | inr new ↦ simp (other, add_to_group_keys c gs, new) refl
  ]
]

-- The keys that are new, in the order of their first occurrence.
abbrev new_to : List String → List String → List String
new_to ks l = filter (λ k. not (has ks k)) (dedup l)

there_is_excluded :
    (ks : List String) (k a : String)
    → has ks k ≡ true
    → (not (k == a) && not (has ks a)) ≡ not (has ks a)
there_is_excluded ks k a there = elim (Bool-cases (k == a)) [
  | inl same ↦
      let found : has ks a ≡ true = ap (has ks) (sym ((eq_iff k a).0 same)) ∙ there in
      simp (same, found) refl
  | inr other ↦ simp other refl
]

new_is_excluded :
    (ks : List String) (k a : String)
    → not (has (ks ++ k ∷ []) a) ≡ (not (k == a) && not (has ks a))
new_is_excluded ks k a = ground (arith, has-append ks (k ∷ []) a)

keys_added :
    (ks : List String) (k : String) (l : List String)
    → add_key k ks ++ new_to (add_key k ks) l ≡ ks ++ new_to ks (k ∷ l)
keys_added ks k l = elim (Bool-cases (has ks k)) [
  | inl there ↦ simp there (
      ap (λ r. ks ++ r)
        (sym (
          filter-filter (λ a. not (has ks a)) (λ a. not (k == a)) (dedup l)
          ∙ filter_agree _ (λ a. not (has ks a)) (dedup l) (λ a. there_is_excluded ks k a there))))
  | inr new ↦ simp new (
      append_assoc ks (k ∷ []) (new_to (ks ++ k ∷ []) l)
      ∙ ap (λ r. ks ++ k ∷ r)
          (filter_agree _ _ (dedup l) (new_is_excluded ks k)
            ∙ sym (filter-filter (λ a. not (has ks a)) (λ a. not (k == a)) (dedup l))))
]

group_configs_keys :
    (cs : List AchievementConfig) (gs : List Group)
    → map group_key (group_configs cs gs)
      ≡ map group_key gs ++ new_to (map group_key gs) (map key_of cs)
unfolding group_configs
group_configs_keys [] gs = sym (append-nil (map group_key gs))
group_configs_keys (c ∷ cs) gs =
    group_configs_keys cs (add_to_group c gs)
    ∙ (ap (λ ks. ks ++ new_to ks (map key_of cs)) (add_to_group_keys c gs)
        ∙ keys_added (map group_key gs) c.group_key (map key_of cs))

keep_all : (l : List String) → filter (λ k. not (has [] k)) l ≡ l
keep_all [] = refl
keep_all (k ∷ l) = ap (λ r. k ∷ r) (keep_all l)

-- What a function of the keys finds, for each key in turn.
abbrev pub found_for : (String → Option AchievementConfig) → List String → List AchievementConfig
found_for f [] = []
found_for f (k ∷ ks) = with_first (f k) (found_for f ks)

found_for_agree :
    (f g : String → Option AchievementConfig) (ks : List String)
    → ((k : String) → has ks k ≡ true → f k ≡ g k)
    → found_for f ks ≡ found_for g ks
found_for_agree f g [] h = refl
found_for_agree f g (k ∷ ks) h =
    cc (h k (ground (arith, eq_iff k k)), found_for_agree f g ks (λ a e. h a (ground (arith, e))))

first_of_each_found :
    (unlocked : List String) (gs : List Group)
    → NoRepeat (map group_key gs)
    → first_of_each unlocked gs
      ≡ found_for (λ k. first_locked unlocked (group_of k gs)) (map group_key gs)
unfolding first_of_each group_of
first_of_each_found unlocked [] h = refl
first_of_each_found unlocked (g ∷ gs) (once, h) = cc (
  own,
  first_of_each_found unlocked gs h,
  found_for_agree (λ k. first_locked unlocked (group_of k gs))
      (λ k. first_locked unlocked (group_of k (g ∷ gs))) (map group_key gs) later,
)
  where
    own : group_of g.key (g ∷ gs) ≡ g.members
    own = ground (arith, eq_iff g.key g.key)

    later :
        (k : String)
        → has (map group_key gs) k ≡ true
        → first_locked unlocked (group_of k gs) ≡ first_locked unlocked (group_of k (g ∷ gs))
    later k e = elim (Bool-cases (g.key == k)) [
      | inl same ↦ absurd (cc (ap (has (map group_key gs)) ((eq_iff g.key k).0 same), once, e))
      | inr other ↦ simp other refl
    ]

configs_keys :
    (cs : List AchievementConfig) → map group_key (group_configs cs []) ≡ dedup (map key_of cs)
configs_keys cs = group_configs_keys cs [] ∙ keep_all (dedup (map key_of cs))

-- The state offers next, for each group in the order in which the configurations first name it, the
-- name of the first achievement of the group, in their order, that the user has not unlocked; a group
-- without one offers nothing. It names the unlocked ones by the time of their unlock.
pub get_achievement_state_lem :
    (rows : List UnlockedAchievement) (configs : List AchievementConfig)
    (unlocked_badges badges : List BadgeConfig)
    → let state = get_achievement_state rows configs unlocked_badges badges in
      (state.next_available_achievements
        ≡ map
            (λ (c : AchievementConfig). c.name)
            (found_for
              (λ k.
                find
                  (λ (d : AchievementConfig). (d.group_key == k) && not (has (ids_of rows) d.id))
                  configs)
              (dedup (map key_of configs))))
      × (state.unlocked_achievements ≡ map (λ (u : UnlockedAchievement). u.achievement.name) rows)
unfolding get_achievement_state group_of
get_achievement_state_lem rows configs unlocked_badges badges = (
  ap (map (λ (c : AchievementConfig). c.name)) (
      first_of_each_found (ids_of rows) (group_configs configs [])
        (subst NoRepeat (sym (configs_keys configs)) (dedup-NoRepeat (map key_of configs)))
      ∙ (found_for_agree _ _ (map group_key (group_configs configs [])) (λ k e.
            ap (first_locked (ids_of rows)) (group_of-group_configs k configs [])
            ∙ first_locked-filter (ids_of rows) k configs)
          ∙ ap (found_for _) (configs_keys configs))),
  refl,
)
