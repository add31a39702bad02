-- ===== src/Loyalty/Seed/Missing.antt =====
-- What a table holds once the defaults that were missing are added to it.
use mathlib.Core.Path.{subst}
use bumpa_achievement_system.Common.{
  ◌≡◌, refl, sym, ◌∙◌, ap, String, true, false, ◌||◌, List, [], ◌∷◌, ◌++◌, map, has, has-append,
  ◌==◌, arith, NoRepeat, Bool-cases, inl, inr, eq_iff, Subset,
}
use bumpa_achievement_system.Loyalty.Seed.{missing}

map-append : {A B : Type 0} (f : A → B) (xs ys : List A) → map f (xs ++ ys) ≡ map f xs ++ map f ys
map-append f [] ys = refl
map-append f (x ∷ xs) ys = ap (λ l. f x ∷ l) (map-append f xs ys)

NoRepeat-append :
    (xs ys : List String)
    → NoRepeat xs
    → NoRepeat ys
    → ((i : String) → has ys i ≡ true → has xs i ≡ false)
    → NoRepeat (xs ++ ys)
NoRepeat-append [] ys h k apart = k
NoRepeat-append (x ∷ xs) ys (f, h) k apart = (
  elim (Bool-cases (has ys x)) [
    | inl twice ↦ absurd (ground (arith, apart x twice, eq_iff x x))
    | inr once ↦ ground (arith, has-append xs ys x)
  ],
  NoRepeat-append xs ys h k (λ i e. ground (arith, apart i e)),
)

module _ {A D : Type 0} (key : A → String) (id : D → String) (make : D → A)
    (own : (d : D) → key (make d) ≡ id d) where
  new_keys :
      (existing : List String) (ds : List D) (i : String)
      → (has existing i || has (map key (map make (missing id existing ds))) i)
        ≡ (has existing i || has (map id ds) i)
  new_keys existing [] i = refl
  new_keys existing (d ∷ ds) i = elim (Bool-cases (has existing (id d))) [
    | inl there ↦ simp there (elim (Bool-cases (id d == i)) [
      | inl same ↦
          let found : has existing i ≡ true =
            ap (has existing) (sym ((eq_iff (id d) i).0 same)) ∙ there in
          simp found
      | inr other ↦ simp other (new_keys existing ds i)
    ])
    | inr new ↦ simp (new, own d) (ground (arith, new_keys existing ds i))
  ]

  -- The keys are the old ones and those of the defaults.
  pub has-seeded :
      (rows : List A) (ds : List D) (i : String)
      → has (map key (rows ++ map make (missing id (map key rows) ds))) i
        ≡ (has (map key rows) i || has (map id ds) i)
  has-seeded rows ds i =
      ap (λ l. has l i) (map-append key rows (map make (missing id (map key rows) ds)))
      ∙ (has-append (map key rows) (map key (map make (missing id (map key rows) ds))) i
          ∙ new_keys (map key rows) ds i)

  new-has :
      (existing : List String) (ds : List D) (i : String)
      → has (map id ds) i ≡ false
      → has (map key (map make (missing id existing ds))) i ≡ false
  new-has existing [] i h = refl
  new-has existing (d ∷ ds) i h = elim (Bool-cases (has existing (id d))) [
    | inl there ↦ simp there (new-has existing ds i (ground arith))
    | inr new ↦ simp (new, own d) (ground (arith, h, new-has existing ds i))
  ]

  new-NoRepeat :
      (existing : List String) (ds : List D)
      → NoRepeat (map id ds)
      → NoRepeat (map key (map make (missing id existing ds)))
  new-NoRepeat existing [] h = tt
  new-NoRepeat existing (d ∷ ds) (f, h) = elim (Bool-cases (has existing (id d))) [
    | inl there ↦ simp there (new-NoRepeat existing ds h)
    | inr new ↦ simp (new, own d) (new-has existing ds (id d) f, new-NoRepeat existing ds h)
  ]

  new_apart :
      (existing : List String) (ds : List D) (i : String)
      → has (map key (map make (missing id existing ds))) i ≡ true
      → has existing i ≡ false
  new_apart existing [] i h = cc
  new_apart existing (d ∷ ds) i h = elim (Bool-cases (has existing (id d))) [
    | inl there ↦ new_apart existing ds i (simp there at h)
    | inr new ↦ elim (Bool-cases (id d == i)) [
      | inl same ↦ ap (has existing) (sym ((eq_iff (id d) i).0 same)) ∙ new
      | inr other ↦ new_apart existing ds i (simp (new, own d, other) at h)
    ]
  ]

  pub seeded-NoRepeat :
      (rows : List A) (ds : List D)
      → NoRepeat (map key rows)
      → NoRepeat (map id ds)
      → NoRepeat (map key (rows ++ map make (missing id (map key rows) ds)))
  seeded-NoRepeat rows ds h k =
      subst NoRepeat (sym (map-append key rows (map make (missing id (map key rows) ds)))) (
        NoRepeat-append (map key rows) _ h (new-NoRepeat (map key rows) ds k)
          (new_apart (map key rows) ds))

pub none_missing :
    {D : Type 0} (id : D → String) (existing : List String) (ds : List D)
    → Subset (map id ds) existing
    → missing id existing ds ≡ []
none_missing id existing [] h = refl
none_missing id existing (d ∷ ds) h =
    let there : has existing (id d) ≡ true = h (id d) (ground (arith, eq_iff (id d) (id d))) in
    simp there (none_missing id existing ds (λ i e. h i (ground (arith, e))))
