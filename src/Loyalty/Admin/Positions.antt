-- ===== src/Loyalty/Admin/Positions.antt =====
-- No two achievements of a group share a position.
use mathlib.Core.Path.{subst}
use bumpa_achievement_system.Common.{
  ℕ, ◌+◌, ◌≡◌, sym, ◌∙◌, ap, String, Bool, true, false, not, ◌&&◌, Option, List, [], ◌∷◌, map, has,
  if◌then◌else◌, leb, nat_eq, ◌==◌, arith, All, NoRepeat, Bool-cases, inl, inr, eq_iff,
}
use bumpa_achievement_system.Loyalty.Unlock.{AchievementConfig}
use bumpa_achievement_system.Loyalty.Admin.{
  put, next_position, incremented, not_excluded, moves_achievement,
}

abbrev pub key : AchievementConfig → String
key c = c.id

-- The two stand at different places.
abbrev pub are_clear : AchievementConfig → AchievementConfig → Bool
are_clear c d = not (c.group_key == d.group_key && nat_eq c.sort_order d.sort_order)

abbrev pub IsClear : AchievementConfig → AchievementConfig → Type 0
IsClear c d = are_clear c d ≡ true

-- Any two rows stand at different places.
abbrev pub AreApart : List AchievementConfig → Type 0
AreApart [] = Unit
AreApart (c ∷ cs) = All (λ d. are_clear c d ≡ true) cs × AreApart cs

IsClear-sym : (c d : AchievementConfig) → IsClear c d → IsClear d c
IsClear-sym c d h = ground (arith, eq_iff c.group_key d.group_key, eq_iff d.group_key c.group_key)

IsOther_outside :
    (i : String) (cs : List AchievementConfig)
    → has (map key cs) i ≡ false
    → All (λ c. (c.id == i) ≡ false) cs
IsOther_outside i [] h = tt
IsOther_outside i (c ∷ cs) h = (ground (arith, h), IsOther_outside i cs (ground (arith, h)))

module _ (new : AchievementConfig) (exclude : Option String) where
  abbrev pub moves : AchievementConfig → Bool
  moves = moves_achievement new.group_key new.sort_order exclude

  abbrev shift : AchievementConfig → AchievementConfig
  shift c = if moves c then next_position c else c

  abbrev pub IsOther : AchievementConfig → Type 0
  IsOther c = (c.id == new.id) ≡ false

  shift-id : (c : AchievementConfig) → (shift c).id ≡ c.id
  shift-id c = elim (Bool-cases (moves c)) [ inl m ↦ simp m | inr k ↦ simp k ]

  shift-group_key : (c : AchievementConfig) → (shift c).group_key ≡ c.group_key
  shift-group_key c = elim (Bool-cases (moves c)) [ inl m ↦ simp m | inr k ↦ simp k ]

  -- Where a row of the group and position goes.
  abbrev place : String → ℕ → ℕ
  place g n = if g == new.group_key && leb new.sort_order n then n + 1 else n

  new_place :
      (g : String) (n : ℕ) → not (new.group_key == g && nat_eq new.sort_order (place g n)) ≡ true
  new_place g n = ground (arith, eq_iff new.group_key g, eq_iff g new.group_key)

  place_clear :
      (g h : String) (n m : ℕ)
      → not (g == h && nat_eq n m) ≡ true
      → not (g == h && nat_eq (place g n) (place h m)) ≡ true
  place_clear g h n m c = elim (Bool-cases (g == h)) [
    | inl same ↦
        let e = ap (λ k. k == new.group_key) ((eq_iff g h).0 same) in
        let apart : nat_eq n m ≡ false = ground (arith, c, same) in ground (arith, same, e, apart)
    | inr other ↦ simp other
  ]

  module _ (included : (c : AchievementConfig) → IsOther c → not_excluded exclude c.id ≡ true) where
    shift-sort_order :
        (c : AchievementConfig) → IsOther c → (shift c).sort_order ≡ place c.group_key c.sort_order
    shift-sort_order c o =
        let a = included c o in
        elim (Bool-cases (c.group_key == new.group_key)) [
          | inl same ↦ elim (Bool-cases (leb new.sort_order c.sort_order)) [
            | inl after ↦ simp (a, same, after)
            | inr before ↦ simp (a, same, before)
          ]
          | inr other ↦ simp (a, other)
        ]

    new-IsClear : (c : AchievementConfig) → IsOther c → IsClear new (shift c)
    new-IsClear c o =
        simp (shift-group_key c, shift-sort_order c o) (new_place c.group_key c.sort_order)

    shift-IsClear :
        (c d : AchievementConfig)
        → IsOther c
        → IsOther d
        → IsClear c d
        → IsClear (shift c) (shift d)
    shift-IsClear c d o p h =
        simp (shift-group_key c, shift-sort_order c o, shift-group_key d, shift-sort_order d p)
          (place_clear c.group_key d.group_key c.sort_order d.sort_order h)

    new-IsClear-All :
        (cs : List AchievementConfig)
        → All IsOther cs
        → All (IsClear new) (incremented moves next_position cs)
    new-IsClear-All [] o = tt
    new-IsClear-All (c ∷ cs) (o, os) = (new-IsClear c o, new-IsClear-All cs os)

    put-same :
        (d : AchievementConfig) (xs : List AchievementConfig)
        → (d.id == new.id) ≡ true
        → put key new (shift d ∷ xs) ≡ new ∷ xs
    put-same d xs h = let e = ap (λ i. i == new.id) (shift-id d) ∙ h in simp e

    put-other :
        (d : AchievementConfig) (xs : List AchievementConfig)
        → IsOther d
        → put key new (shift d ∷ xs) ≡ shift d ∷ put key new xs
    put-other d xs h = let e = ap (λ i. i == new.id) (shift-id d) ∙ h in simp e

    shift-IsClear-All :
        (c : AchievementConfig) (cs : List AchievementConfig)
        → IsOther c
        → All IsOther cs
        → All (IsClear c) cs
        → All (IsClear (shift c)) (incremented moves next_position cs)
    shift-IsClear-All c [] o os h = tt
    shift-IsClear-All c (d ∷ ds) o (p, os) (q, h) =
        (shift-IsClear c d o p q, shift-IsClear-All c ds o os h)

    shift_apart :
        (cs : List AchievementConfig)
        → All IsOther cs
        → AreApart cs
        → AreApart (incremented moves next_position cs)
    shift_apart [] os h = tt
    shift_apart (c ∷ cs) (o, os) (q, h) = (shift-IsClear-All c cs o os q, shift_apart cs os h)

    rest_others :
        (d : AchievementConfig) (ds : List AchievementConfig)
        → (d.id == new.id) ≡ true
        → has (map key ds) d.id ≡ false
        → All IsOther ds
    rest_others d ds same n =
        IsOther_outside new.id ds (ap (has (map key ds)) (sym ((eq_iff d.id new.id).0 same)) ∙ n)

    -- A row that stays is clear of the others, shifted, with the new one in its place.
    put-IsClear :
        (c : AchievementConfig) (cs : List AchievementConfig)
        → IsOther c
        → NoRepeat (map key cs)
        → All (IsClear c) cs
        → All (IsClear (shift c)) (put key new (incremented moves next_position cs))
    put-IsClear c [] o once h = (IsClear-sym new (shift c) (new-IsClear c o), tt)
    put-IsClear c (d ∷ ds) o (n, once) (p, h) = elim (Bool-cases (d.id == new.id)) [
      | inl same ↦
          subst (All (IsClear (shift c)))
            (sym (put-same d (incremented moves next_position ds) same))
            (
              IsClear-sym new (shift c) (new-IsClear c o),
              shift-IsClear-All c ds o (rest_others d ds same n) h,
            )
      | inr other ↦
          subst (All (IsClear (shift c)))
            (sym (put-other d (incremented moves next_position ds) other))
            (shift-IsClear c d o other p, put-IsClear c ds o once h)
    ]

    pub put_apart :
        (cs : List AchievementConfig)
        → NoRepeat (map key cs)
        → AreApart cs
        → AreApart (put key new (incremented moves next_position cs))
    put_apart [] once h = (tt, tt)
    put_apart (c ∷ cs) (n, once) (p, h) = elim (Bool-cases (c.id == new.id)) [
      | inl same ↦
          subst AreApart (sym (put-same c (incremented moves next_position cs) same)) (
            new-IsClear-All cs (rest_others c cs same n),
            shift_apart cs (rest_others c cs same n) h,
          )
      | inr other ↦
          subst AreApart (sym (put-other c (incremented moves next_position cs) other))
            (put-IsClear c cs other once p, put_apart cs once h)
    ]

-- A row that keeps its place is replaced.
pub replaced-IsClear :
    (new c : AchievementConfig) (cs : List AchievementConfig)
    → All (IsClear c) cs
    → IsClear c new
    → All (IsClear c) (put key new cs)
replaced-IsClear new c [] h p = (p, tt)
replaced-IsClear new c (d ∷ ds) (q, h) p = elim (Bool-cases (d.id == new.id)) [
  | inl same ↦ simp same (p, h)
  | inr other ↦ simp other (q, replaced-IsClear new c ds h p)
]
