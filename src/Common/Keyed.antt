-- ===== src/Common/Keyed.antt =====
-- Tables that are looked up by a key, for the tests: a table is its keys and a function.
use Prim.Native.Nat.{suc, zero, ℕ, ◌≤◌}
use Prim.Native.String.{String}
use mathlib.Core.Path.{◌≡◌, refl, ap, sym, ◌∙◌}
use mathlib.Core.Logic.{inl, inr}
use mathlib.Core.Bool.{Bool, true, false, not}
use mathlib.Core.Option.{Option, none, some}
use mathlib.Core.List.{List, [], ◌∷◌, map}
use native.Mathlib.Omega.{arith}
use text.Mathlib.Text.{◌==◌}
use text.Mathlib.TextEquality.{eq_iff}
use bumpa_achievement_system.Common.Tests.{if◌then◌else◌, Bool-cases, Option-cases, some-eq}
use bumpa_achievement_system.Common.Lists.{length, filter, All, has, NoRepeat}

abbrev pub dedup : List String → List String
dedup [] = []
dedup (x ∷ xs) = x ∷ filter (λ y. not (x == y)) (dedup xs)

has-filter :
    (p : String → Bool) (a : String) (xs : List String)
    → has xs a ≡ false
    → has (filter p xs) a ≡ false
has-filter p a [] h = refl
has-filter p a (x ∷ xs) h = ground (arith, has-filter p a xs)

has-filter_self : (x : String) (xs : List String) → has (filter (λ y. not (x == y)) xs) x ≡ false
has-filter_self x [] = refl
has-filter_self x (y ∷ xs) = ground (arith, has-filter_self x xs, eq_iff x y, eq_iff y x)

NoRepeat-filter : (p : String → Bool) (xs : List String) → NoRepeat xs → NoRepeat (filter p xs)
NoRepeat-filter p [] h = tt
NoRepeat-filter p (x ∷ xs) (n, h) = elim (Bool-cases (p x)) [
  | inl y ↦ simp y (has-filter p x xs n, NoRepeat-filter p xs h)
  | inr z ↦ simp z (NoRepeat-filter p xs h)
]

pub dedup-NoRepeat : (xs : List String) → NoRepeat (dedup xs)
dedup-NoRepeat [] = tt
dedup-NoRepeat (x ∷ xs) =
    (has-filter_self x (dedup xs), NoRepeat-filter _ (dedup xs) (dedup-NoRepeat xs))

module _ {A : Type 0} (id : A → String) where
  -- An entry is found under its own key alone.
  abbrev pub checked : String → Option A → Option A
  checked i none = none
  checked i (some a) = if id a == i then some a else none

  pub checked-id : (i : String) (o : Option A) (a : A) → checked i o ≡ some a → id a ≡ i
  checked-id i none a h = cc
  checked-id i (some b) a h = elim (Bool-cases (id b == i)) [
    | inl own ↦ sym (ap id (some-eq (simp own at h))) ∙ (eq_iff (id b) i).0 own
    | inr other ↦ absurd (cc (simp other at h))
  ]

  pub checked-written :
      (j k : String) (a : A) (o : Option A)
      → id a ≡ k
      → checked j (if k == j then some a else o) ≡ (if k == j then some a else checked j o)
  checked-written j k a o e = elim (Bool-cases (k == j)) [
    | inl own ↦ simp (own, e)
    | inr other ↦ simp other
  ]

  pub checked-updated :
      (i j : String) (o : Option A) (f : Option A → Option A)
      → checked j (f (checked j o)) ≡ f (checked j o)
      → checked j (if i == j then f (checked j o) else o)
        ≡ (if i == j then f (checked j o) else checked j o)
  checked-updated i j o f e = elim (Bool-cases (i == j)) [
    | inl own ↦ simp own e
    | inr other ↦ simp other
  ]

  module _ (find_one : String → Option A) (p : A → Bool) where
    abbrev pub keep : Option A → List A → List A → List A
    keep none kept skipped = skipped
    keep (some a) kept skipped = if p a then a ∷ kept else skipped

    -- At most so many entries of the keys that pass the test.
    abbrev pub collect : List String → ℕ → List A
    collect [] n = []
    collect (i ∷ is) zero = []
    collect (i ∷ is) (suc n) = keep (find_one i) (collect is n) (collect is (suc n))

    pub collect-le : (is : List String) (n : ℕ) → length (collect is n) ≤ n
    collect-le [] n = omega arith
    collect-le (i ∷ is) zero = omega arith
    collect-le (i ∷ is) (suc n) =
        ground (arith, collect-le is n, collect-le is (suc n), Option-cases (find_one i))

    module _ (own : (i : String) (a : A) → find_one i ≡ some a → id a ≡ i) where
      pub collect-found :
          (is : List String) (n : ℕ)
          → All (λ a. (find_one (id a) ≡ some a) × (p a ≡ true)) (collect is n)
      collect-found [] n = tt
      collect-found (i ∷ is) zero = tt
      collect-found (i ∷ is) (suc n) = elim (Option-cases (find_one i)) [
        | inl e ↦ simp e (collect-found is (suc n))
        | inr (a, e) ↦ elim (Bool-cases (p a)) [
          | inl y ↦ simp (e, y) ((ap find_one (own i a e) ∙ e, refl), collect-found is n)
          | inr z ↦ simp (e, z) (collect-found is (suc n))
        ]
      ]

      collect-has :
          (is : List String) (n : ℕ) (b : String)
          → has is b ≡ false
          → has (map id (collect is n)) b ≡ false
      collect-has [] n b h = refl
      collect-has (i ∷ is) zero b h = refl
      collect-has (i ∷ is) (suc n) b h = elim (Option-cases (find_one i)) [
        | inl e ↦ simp e (collect-has is (suc n) b (ground (arith, h)))
        | inr (a, e) ↦ elim (Bool-cases (p a)) [
          | inl y ↦ simp (e, y, own i a e) (ground (arith, h, collect-has is n b))
          | inr z ↦ simp (e, z) (collect-has is (suc n) b (ground (arith, h)))
        ]
      ]

      pub collect-once : (is : List String) (n : ℕ) → NoRepeat is → NoRepeat (map id (collect is n))
      collect-once [] n h = tt
      collect-once (i ∷ is) zero h = tt
      collect-once (i ∷ is) (suc n) (f, h) = elim (Option-cases (find_one i)) [
        | inl e ↦ simp e (collect-once is (suc n) h)
        | inr (a, e) ↦ elim (Bool-cases (p a)) [
          | inl y ↦ simp (e, y, own i a e) (collect-has is n i f, collect-once is n h)
          | inr z ↦ simp (e, z) (collect-once is (suc n) h)
        ]
      ]
