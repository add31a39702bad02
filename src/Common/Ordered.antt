-- ===== src/Common/Ordered.antt =====
-- Lists of rows, no two with the same key: parts of them, and tables that keep the order in which their
-- rows were inserted.
use Prim.Native.Nat.{suc, zero, ℕ, ◌≤◌}
use Prim.Native.String.{String}
use mathlib.Core.Path.{◌≡◌, refl, ap, sym, ◌∙◌, subst}
use mathlib.Core.Logic.{inl, inr}
use mathlib.Core.Bool.{Bool, true, false}
use mathlib.Core.Option.{Option, none, some}
use mathlib.Core.List.{List, [], ◌∷◌, ◌++◌, map, Memᴰ}
use native.Mathlib.Omega.{arith}
use text.Mathlib.Text.{◌==◌}
use text.Mathlib.TextEquality.{eq_iff}
use text.Mathlib.TextPositions.{eq_refl}
use bumpa_achievement_system.Common.Tests.{if◌then◌else◌, Bool-cases, some-eq}
use bumpa_achievement_system.Common.Lists.{length, filter, find, take, All, has, NoRepeat}

module _ {A : Type 0} where
  -- What a change makes of a row that may be there.
  abbrev pub mapped : (A → A) → Option A → Option A
  mapped f none = none
  mapped f (some a) = some (f a)

  pub take-le : (n : ℕ) (l : List A) → length (take n l) ≤ n
  take-le zero l = omega arith
  take-le (suc n) [] = omega arith
  take-le (suc n) (a ∷ l) = omega (arith, take-le n l)

  pub take-All : (P : A → Type 0) (n : ℕ) (l : List A) → All P l → All P (take n l)
  take-All P zero l h = tt
  take-All P (suc n) [] h = tt
  take-All P (suc n) (a ∷ l) (h, hs) = (h, take-All P n l hs)

  pub filter-All :
      (P : A → Type 0) (p : A → Bool) (l : List A)
      → All P l
      → All (λ a. P a × (p a ≡ true)) (filter p l)
  filter-All P p [] h = tt
  filter-All P p (a ∷ l) (h, hs) = elim (Bool-cases (p a)) [
    | inl y ↦ simp y ((h, refl), filter-All P p l hs)
    | inr n ↦ simp n (filter-All P p l hs)
  ]

  All-Memᴰ : (P : A → Type 0) (l : List A) → ((a : A) → Memᴰ a l → P a) → All P l
  All-Memᴰ P [] f = tt
  All-Memᴰ P (a ∷ l) f = (f a (Memᴰ.head refl), All-Memᴰ P l (λ b m. f b (Memᴰ.tail m)))

  module _ (id : A → String) where
    take-has :
        (n : ℕ) (l : List A) (i : String)
        → has (map id l) i ≡ false
        → has (map id (take n l)) i ≡ false
    take-has zero l i h = refl
    take-has (suc n) [] i h = refl
    take-has (suc n) (a ∷ l) i h = ground (arith, h, take-has n l i)

    pub take-NoRepeat : (n : ℕ) (l : List A) → NoRepeat (map id l) → NoRepeat (map id (take n l))
    take-NoRepeat zero l h = tt
    take-NoRepeat (suc n) [] h = tt
    take-NoRepeat (suc n) (a ∷ l) (h, hs) = (take-has n l (id a) h, take-NoRepeat n l hs)

    filter-has :
        (p : A → Bool) (l : List A) (i : String)
        → has (map id l) i ≡ false
        → has (map id (filter p l)) i ≡ false
    filter-has p [] i h = refl
    filter-has p (a ∷ l) i h = elim (Bool-cases (p a)) [
      | inl y ↦ simp y (ground (arith, h, filter-has p l i))
      | inr n ↦ simp n (filter-has p l i (ground (arith, h)))
    ]

    pub rows_that-NoRepeat :
        (p : A → Bool) (l : List A) → NoRepeat (map id l) → NoRepeat (map id (filter p l))
    rows_that-NoRepeat p [] h = tt
    rows_that-NoRepeat p (a ∷ l) (h, hs) = elim (Bool-cases (p a)) [
      | inl y ↦ simp y (filter-has p l (id a) h, rows_that-NoRepeat p l hs)
      | inr n ↦ simp n (rows_that-NoRepeat p l hs)
    ]

    -- The row of a key.
    abbrev pub row : String → List A → Option A
    row i l = find (λ a. id a == i) l

    -- A row takes the place of that of its key, or comes last.
    abbrev pub written : A → List A → List A
    written a [] = a ∷ []
    written a (b ∷ l) = let rest = written a l in if id b == id a then a ∷ l else b ∷ rest

    -- The row of a key is changed in its place.
    abbrev pub changed : String → (A → A) → List A → List A
    changed i f [] = []
    changed i f (b ∷ l) = let rest = changed i f l in if id b == i then f b ∷ l else b ∷ rest

    pub row-id : (i : String) (l : List A) (a : A) → row i l ≡ some a → id a ≡ i
    row-id i [] a h = cc
    row-id i (b ∷ l) a h = elim (Bool-cases (id b == i)) [
      | inl own ↦ sym (ap id (some-eq (simp own at h))) ∙ (eq_iff (id b) i).0 own
      | inr other ↦ row-id i l a (simp other at h)
    ]

    pub row-Memᴰ : (i : String) (l : List A) (a : A) → row i l ≡ some a → Memᴰ a l
    row-Memᴰ i [] a h = cc
    row-Memᴰ i (b ∷ l) a h = elim (Bool-cases (id b == i)) [
      | inl own ↦ Memᴰ.head (sym (some-eq (simp own at h)))
      | inr other ↦ Memᴰ.tail (row-Memᴰ i l a (simp other at h))
    ]

    Memᴰ-has : (l : List A) (a : A) → Memᴰ a l → has (map id l) (id a) ≡ true
    Memᴰ-has [] a m = elim m [ ]
    Memᴰ-has (b ∷ l) a (Memᴰ.head e) =
        subst (λ x. has (map id (b ∷ l)) (id x) ≡ true) (sym e) (simp (eq_refl (id b)))
    Memᴰ-has (b ∷ l) a (Memᴰ.tail m) = ground (arith, Memᴰ-has l a m)

    Memᴰ-row : (l : List A) (a : A) → NoRepeat (map id l) → Memᴰ a l → row (id a) l ≡ some a
    Memᴰ-row [] a h m = elim m [ ]
    Memᴰ-row (b ∷ l) a h (Memᴰ.head e) =
        subst (λ x. row (id x) (b ∷ l) ≡ some x) (sym e) (simp (eq_refl (id b)))
    Memᴰ-row (b ∷ l) a (n, h) (Memᴰ.tail m) = elim (Bool-cases (id b == id a)) [
      | inl same ↦ absurd (
          cc (
            subst (λ k. has (map id l) k ≡ false) ((eq_iff (id b) (id a)).0 same) n,
            Memᴰ-has l a m,
          ))
      | inr other ↦ simp other (Memᴰ-row l a h m)
    ]

    pub rows-found : (l : List A) → NoRepeat (map id l) → All (λ a. row (id a) l ≡ some a) l
    rows-found l h = All-Memᴰ _ l (λ a m. Memᴰ-row l a h m)

    pub row-written :
        (j : String) (a : A) (l : List A)
        → row j (written a l) ≡ (if id a == j then some a else row j l)
    row-written j a [] = refl
    row-written j a (b ∷ l) = elim (Bool-cases (id b == id a)) [
      | inl same ↦ elim (Bool-cases (id a == j)) [
        | inl own ↦ simp (same, own)
        | inr other ↦
            simp (
              same,
              other,
              subst (λ k. (k == j) ≡ false) (sym ((eq_iff (id b) (id a)).0 same)) other,
            )
      ]
      | inr differs ↦ elim (Bool-cases (id b == j)) [
        | inl here ↦ simp (
          differs,
          here,
          subst (λ k. (id a == k) ≡ false) ((eq_iff (id b) j).0 here)
              (ground (arith, differs, eq_iff (id a) (id b), eq_iff (id b) (id a))),
        )
        | inr there ↦ simp (differs, there) (row-written j a l)
      ]
    ]

    pub row-changed :
        (j i : String) (f : A → A) (l : List A)
        → ((a : A) → id (f a) ≡ id a)
        → row j (changed i f l) ≡ (if i == j then mapped f (row j l) else row j l)
    row-changed j i f [] k = elim (Bool-cases (i == j)) [ inl y ↦ simp y | inr n ↦ simp n ]
    row-changed j i f (b ∷ l) k = elim (Bool-cases (id b == i)) [
      | inl own ↦
          let e = (eq_iff (id b) i).0 own in
          elim (Bool-cases (i == j)) [
            | inl same ↦ simp (own, same, k, subst (λ x. (x == j) ≡ true) (sym e) same)
            | inr other ↦ simp (own, other, k, subst (λ x. (x == j) ≡ false) (sym e) other)
          ]
      | inr differs ↦ elim (Bool-cases (id b == j)) [
        | inl here ↦ simp (
          differs,
          here,
          subst (λ x. (i == x) ≡ false) ((eq_iff (id b) j).0 here)
              (ground (arith, differs, eq_iff i (id b), eq_iff (id b) i)),
        )
        | inr there ↦ simp (differs, there) (row-changed j i f l k)
      ]
    ]

    pub written-new :
        (a : A) (l : List A) → row (id a) l ≡ none → map id (written a l) ≡ map id l ++ id a ∷ []
    written-new a [] h = refl
    written-new a (b ∷ l) h = elim (Bool-cases (id b == id a)) [
      | inl same ↦ absurd (cc (simp same at h))
      | inr other ↦ simp (other, written-new a l (simp other at h))
    ]

    pub written-old :
        (a b : A) (l : List A) → row (id a) l ≡ some b → map id (written a l) ≡ map id l
    written-old a b [] h = cc
    written-old a b (c ∷ l) h = elim (Bool-cases (id c == id a)) [
      | inl same ↦ simp same (ap (λ k. k ∷ map id l) (sym ((eq_iff (id c) (id a)).0 same)))
      | inr other ↦ simp (other, written-old a b l (simp other at h))
    ]

    written-has :
        (a : A) (l : List A) (i : String)
        → (id a == i) ≡ false
        → has (map id l) i ≡ false
        → has (map id (written a l)) i ≡ false
    written-has a [] i n h = simp n
    written-has a (b ∷ l) i n h = elim (Bool-cases (id b == id a)) [
      | inl same ↦ simp same (ground (arith, n, h))
      | inr other ↦ simp other (ground (arith, h, written-has a l i n))
    ]

    pub written-NoRepeat :
        (a : A) (l : List A) → NoRepeat (map id l) → NoRepeat (map id (written a l))
    written-NoRepeat a [] h = (refl, tt)
    written-NoRepeat a (b ∷ l) (n, h) = elim (Bool-cases (id b == id a)) [
      | inl same ↦
          simp same (subst (λ k. has (map id l) k ≡ false) ((eq_iff (id b) (id a)).0 same) n, h)
      | inr other ↦
          let differs : (id a == id b) ≡ false =
            ground (arith, other, eq_iff (id a) (id b), eq_iff (id b) (id a)) in
          simp other (written-has a l (id b) differs n, written-NoRepeat a l h)
    ]

    pub changed-ids :
        (i : String) (f : A → A) (l : List A)
        → ((a : A) → id (f a) ≡ id a)
        → map id (changed i f l) ≡ map id l
    changed-ids i f [] k = refl
    changed-ids i f (b ∷ l) k = elim (Bool-cases (id b == i)) [
      | inl own ↦ simp (own, k)
      | inr other ↦ simp (other, changed-ids i f l k)
    ]
