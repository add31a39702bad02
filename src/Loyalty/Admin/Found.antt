-- ===== src/Loyalty/Admin/Found.antt =====
-- Rows that are found and replaced by their identifier, in the order of their group.
use mathlib.Core.Path.{subst}
use mathlib.Core.Bool.{and-eq-true_iff}
use bumpa_achievement_system.Common.{
  ◌≡◌, sym, ◌∙◌, ap, String, true, false, Option, some, some-eq, List, [], ◌∷◌, has, find, ◌==◌,
  All, Bool-cases, inl, inr, eq_iff, Subset, all,
}
use bumpa_achievement_system.Loyalty.Unlock.{AchievementConfig}
use bumpa_achievement_system.Loyalty.Admin.{put, not_excluded}
use bumpa_achievement_system.Loyalty.Admin.Positions.{key, IsClear, AreApart, replaced-IsClear}

same_place-IsClear :
    (a b c : AchievementConfig)
    → a.group_key ≡ b.group_key
    → a.sort_order ≡ b.sort_order
    → IsClear a c
    → IsClear b c
same_place-IsClear a b c group order h = simp (sym group, sym order) h

IsClear-same_place :
    (a b c : AchievementConfig)
    → a.group_key ≡ b.group_key
    → a.sort_order ≡ b.sort_order
    → IsClear c a
    → IsClear c b
IsClear-same_place a b c group order h = simp (sym group, sym order) h

same_place_All :
    (a b : AchievementConfig) (cs : List AchievementConfig)
    → a.group_key ≡ b.group_key
    → a.sort_order ≡ b.sort_order
    → All (IsClear a) cs
    → All (IsClear b) cs
same_place_All a b [] group order h = tt
same_place_All a b (c ∷ cs) group order (p, h) =
    (same_place-IsClear a b c group order p, same_place_All a b cs group order h)

found_in : (i : String) (cs : List AchievementConfig) → Option AchievementConfig
found_in i cs = find (λ (c : AchievementConfig). c.id == i) cs

find-All :
    (P : AchievementConfig → Type 0) (i : String) (cs : List AchievementConfig)
    (old : AchievementConfig)
    → find (λ (c : AchievementConfig). c.id == i) cs ≡ some old
    → All P cs
    → P old
find-All P i [] old h ps = cc
find-All P i (c ∷ cs) old h (p, ps) = elim (Bool-cases (c.id == i)) [
  | inl same ↦ subst P (some-eq (simp same at h)) p
  | inr other ↦ find-All P i cs old (simp other at h) ps
]

pub find-id :
    (i : String) (cs : List AchievementConfig) (old : AchievementConfig)
    → find (λ (c : AchievementConfig). c.id == i) cs ≡ some old
    → old.id ≡ i
find-id i [] old h = cc
find-id i (c ∷ cs) old h = elim (Bool-cases (c.id == i)) [
  | inl same ↦ sym (ap key (some-eq (simp same at h))) ∙ (eq_iff c.id i).0 same
  | inr other ↦ find-id i cs old (simp other at h)
]

pub excluded_other :
    (i new old : String) → new ≡ old → (i == new) ≡ false → not_excluded (some old) i ≡ true
excluded_other i new old e o = elim (Bool-cases (old == "")) [
  | inl blank ↦ simp blank
  | inr named ↦ let o' = ap (λ j. i == j) (sym e) ∙ o in simp (named, o')
]

pub all-Subset : (xs ys : List String) → all (has xs) ys ≡ true → Subset ys xs
all-Subset xs [] h = λ a i. cc
all-Subset xs (y ∷ ys) h = λ a i.
    let (first, rest) = (and-eq-true_iff (has xs y) (all (has xs) ys)).0 h in
    elim (Bool-cases (y == a)) [
      | inl same ↦ ap (has xs) (sym ((eq_iff y a).0 same)) ∙ first
      | inr other ↦ all-Subset xs ys rest a (simp other at i)
    ]

-- A row that keeps its place replaces its old version.
pub replaced_apart :
    (new old : AchievementConfig) (cs : List AchievementConfig)
    → find (λ (c : AchievementConfig). c.id == new.id) cs ≡ some old
    → old.group_key ≡ new.group_key
    → old.sort_order ≡ new.sort_order
    → AreApart cs
    → AreApart (put key new cs)
replaced_apart new old [] found group order h = (tt, tt)
replaced_apart new old (c ∷ cs) found group order (p, h) = elim (Bool-cases (c.id == new.id)) [
  | inl same ↦
      let e : c ≡ old = some-eq (simp same at found) in
      simp same (same_place_All old new cs group order (subst (λ x. All (IsClear x) cs) e p), h)
  | inr other ↦
      let later : find (λ (x : AchievementConfig). x.id == new.id) cs ≡ some old =
        simp other at found in
      simp other (
        replaced-IsClear new c cs p
            (IsClear-same_place old new c group order (find-All (IsClear c) new.id cs old later p)),
        replaced_apart new old cs later group order h,
      )
]
