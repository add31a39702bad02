-- ===== src/Common/Lists.antt =====
-- Lists with Boolean predicates, as the source's array methods use them, and sets of names.
use Prim.Native.Nat.{ℕ, zero, suc, ◌+◌, ◌≤◌, ◌<◌}
use Prim.Native.String.{String}
use text.Mathlib.TextEquality.{eq_iff}
use mathlib.Core.List.{Memᴰ}
use mathlib.Core.Bool.{not}
use mathlib.Core.Logic.{inl, inr}
use mathlib.Core.Path.{refl, ap, ◌≡◌}
use mathlib.Core.Bool.{Bool, true, false, ◌&&◌, ◌||◌}
use mathlib.Core.Option.{Option, none, some}
use mathlib.Core.List.{List, [], ◌∷◌, ◌++◌}
use native.Mathlib.Omega.{arith}
use text.Mathlib.Text.{◌==◌}
use bumpa_achievement_system.Common.Tests.{Bool-cases, if◌then◌else◌}

module _ {ℓ} {A : Type ℓ} where
  abbrev pub length : List A → ℕ
  length [] = 0
  length (x ∷ xs) = suc (length xs)

  -- Array.prototype.filter, every, some and find.
  abbrev pub filter : (A → Bool) → List A → List A
  filter p [] = []
  filter p (x ∷ xs) = let rest = filter p xs in if p x then x ∷ rest else rest

  abbrev pub all : (A → Bool) → List A → Bool
  all p [] = true
  all p (x ∷ xs) = p x && all p xs

  abbrev pub any : (A → Bool) → List A → Bool
  any p [] = false
  any p (x ∷ xs) = p x || any p xs

  abbrev pub find : (A → Bool) → List A → Option A
  find p [] = none
  find p (x ∷ xs) = if p x then some x else find p xs

  -- Array.prototype.slice from the start, and the rest.
  abbrev pub take : ℕ → List A → List A
  take zero l = []
  take (suc n) [] = []
  take (suc n) (x ∷ l) = x ∷ take n l

  abbrev pub drop : ℕ → List A → List A
  drop zero l = l
  drop (suc n) [] = []
  drop (suc n) (x ∷ l) = drop n l

  abbrev pub All {κ} : (A → Type κ) → List A → Type κ
  All P [] = Unit
  All P (x ∷ xs) = P x × All P xs

-- A Set<string>, as the list of what was added to it: `has`.
abbrev pub has : List String → String → Bool
has [] a = false
has (x ∷ xs) a = x == a || has xs a

-- Every name of the first set is in the second.
abbrev pub Subset : List String → List String → Type 0
Subset xs ys = (a : String) → has xs a ≡ true → has ys a ≡ true

-- A larger set has at least as many of the listed names.
pub filter-has_mono :
    (ids xs ys : List String)
    → Subset xs ys
    → length (filter (has xs) ids) ≤ length (filter (has ys) ids)
filter-has_mono [] xs ys h = omega arith
filter-has_mono (i ∷ ids) xs ys h = ground (arith, filter-has_mono ids xs ys h, h i)

pub Subset-false :
    (xs ys : List String) → Subset xs ys → (a : String) → has ys a ≡ false → has xs a ≡ false
Subset-false xs ys h a n = elim (Bool-cases (has xs a)) [ inl found ↦ cc (h a found) | inr e ↦ e ]

-- How many entries of the list have a name outside the set.
module _ {A : Type 0} (id : A → String) where
  abbrev pub remaining : List A → List String → ℕ
  remaining cs xs = length (filter (λ c. not (has xs (id c))) cs)

  pub remaining_le :
      (cs : List A) (xs ys : List String) → Subset xs ys → remaining cs ys ≤ remaining cs xs
  remaining_le [] xs ys h = omega arith
  remaining_le (c ∷ cs) xs ys h = ground (arith, remaining_le cs xs ys h, h (id c))

  -- An entry that comes into the set leaves fewer outside.
  pub remaining_lt :
      (cs : List A) (xs ys : List String) (c : A)
      → Subset xs ys
      → Memᴰ c cs
      → has xs (id c) ≡ false
      → has ys (id c) ≡ true
      → remaining cs ys < remaining cs xs
  remaining_lt [] xs ys c h m n y = elim m [ ]
  remaining_lt (d ∷ cs) xs ys c h (Memᴰ.head e) n y =
      ground (arith, remaining_le cs xs ys h, ap id e)
  remaining_lt (d ∷ cs) xs ys c h (Memᴰ.tail m) n y =
      ground (arith, remaining_lt cs xs ys c h m n y, h (id d))

  pub remaining-le-length : (cs : List A) (xs : List String) → remaining cs xs ≤ length cs
  remaining-le-length [] xs = omega arith
  remaining-le-length (c ∷ cs) xs = ground (arith, remaining-le-length cs xs)

module _ {ℓ} {A : Type ℓ} where
  pub All-concat {κ} :
      (P : A → Type κ) (xs : List A) {x : A} → All P xs → P x → All P (xs ++ x ∷ [])
  All-concat P [] h p = (p, tt)
  All-concat P (y ∷ xs) (q, h) p = (q, All-concat P xs h p)

  pub All-map {κ κ'} :
      (P : A → Type κ) (Q : A → Type κ') (xs : List A) → ((x : A) → P x → Q x) → All P xs → All Q xs
  All-map P Q [] f h = tt
  All-map P Q (x ∷ xs) f (p, h) = (f x p, All-map P Q xs f h)

  pub length-append : (xs ys : List A) → length (xs ++ ys) ≡ length xs + length ys
  length-append [] ys = omega arith
  length-append (x ∷ xs) ys = omega (arith, length-append xs ys)

-- The two lists correspond entry by entry.
module _ {A B : Type 0} where
  pub data Pairs (R : A → B → Type 0) : List A → List B → Type 0 where
    none_left : Pairs R [] []
    pair :
        {x : A} {y : B} {xs : List A} {ys : List B}
        → R x y
        → Pairs R xs ys
        → Pairs R (x ∷ xs) (y ∷ ys)

  pub Pairs-concat :
      (R : A → B → Type 0) {xs : List A} {ys : List B} (x : A) (y : B)
      → Pairs R xs ys
      → R x y
      → Pairs R (xs ++ x ∷ []) (ys ++ y ∷ [])
  Pairs-concat R x y none_left r = pair r none_left
  Pairs-concat R x y (pair s ps) r = pair s (Pairs-concat R x y ps r)

pub has-append : (xs ys : List String) (a : String) → has (xs ++ ys) a ≡ (has xs a || has ys a)
has-append [] ys a = refl
has-append (x ∷ xs) ys a = ground (arith, has-append xs ys a)

-- No name stands twice.
abbrev pub NoRepeat : List String → Type 0
NoRepeat [] = Unit
NoRepeat (x ∷ xs) = (has xs x ≡ false) × NoRepeat xs

pub NoRepeat-concat :
    (xs : List String) (a : String) → NoRepeat xs → has xs a ≡ false → NoRepeat (xs ++ a ∷ [])
NoRepeat-concat [] a h n = (refl, tt)
NoRepeat-concat (x ∷ xs) a (f, h) n = (
  ground (arith, has-append xs (a ∷ []) x, eq_iff x a, eq_iff a x),
  NoRepeat-concat xs a h (ground arith),
)
