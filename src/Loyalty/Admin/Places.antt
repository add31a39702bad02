-- ===== src/Loyalty/Admin/Places.antt =====
-- Rows at numbered places, one of which is inserted or moved: the badges and the groups.
use mathlib.Core.Path.{subst}
use bumpa_achievement_system.Common.{
  ℕ, ◌+◌, ◌≡◌, sym, ◌∙◌, ap, String, Bool, false, some, some-eq, List, [], ◌∷◌, map, has, find,
  if◌then◌else◌, leb, nat_eq, ◌==◌, arith, All, NoRepeat, Bool-cases, inl, inr, eq_iff,
}
use bumpa_achievement_system.Loyalty.Admin.{put, incremented}

module _ {A : Type 0} (id : A → String) (at : A → ℕ) where
  abbrev pub IsAt : ℕ → A → Type 0
  IsAt n a = nat_eq n (at a) ≡ false

  -- Any two rows stand at different places.
  abbrev pub HaveOwnPlaces : List A → Type 0
  HaveOwnPlaces [] = Unit
  HaveOwnPlaces (a ∷ l) = All (IsAt (at a)) l × HaveOwnPlaces l

  outside : (i : String) (l : List A) → has (map id l) i ≡ false → All (λ a. (id a == i) ≡ false) l
  outside i [] h = tt
  outside i (a ∷ l) h = (ground (arith, h), outside i l (ground (arith, h)))

  module _ (new : A) (move : A → A) (moves : A → Bool) (id-move : (a : A) → id (move a) ≡ id a)
      (at-move : (a : A) → at (move a) ≡ at a + 1)
      (moves_others : (a : A) → (id a == id new) ≡ false → moves a ≡ leb (at new) (at a)) where
    abbrev shift : A → A
    shift a = if moves a then move a else a

    -- Where a row of that place goes.
    abbrev place : ℕ → ℕ
    place n = if leb (at new) n then n + 1 else n

    id-shift : (a : A) → id (shift a) ≡ id a
    id-shift a = elim (Bool-cases (moves a)) [ inl m ↦ simp (m, id-move a) | inr k ↦ simp k ]

    at-shift : (a : A) → (id a == id new) ≡ false → at (shift a) ≡ place (at a)
    at-shift a o = elim (Bool-cases (leb (at new) (at a))) [
      | inl after ↦ simp (moves_others a o, after, at-move a)
      | inr before ↦ simp (moves_others a o, before)
    ]

    new_place : (n : ℕ) → nat_eq (at new) (place n) ≡ false
    new_place n = ground arith

    place_apart : (n m : ℕ) → nat_eq n m ≡ false → nat_eq (place n) (place m) ≡ false
    place_apart n m h = ground arith

    others_clear :
        (l : List A) → All (λ a. (id a == id new) ≡ false) l → All (IsAt (at new)) (map shift l)
    others_clear [] h = tt
    others_clear (a ∷ l) (o, h) =
        (ap (nat_eq (at new)) (at-shift a o) ∙ new_place (at a), others_clear l h)

    shift_apart :
        (a b : A)
        → (id a == id new) ≡ false
        → (id b == id new) ≡ false
        → IsAt (at a) b
        → IsAt (at (shift a)) (shift b)
    shift_apart a b o p h = rw (at-shift a o, at-shift b p) (place_apart (at a) (at b) h)

    others_apart :
        (a : A) (l : List A)
        → (id a == id new) ≡ false
        → All (λ b. (id b == id new) ≡ false) l
        → All (IsAt (at a)) l
        → All (IsAt (at (shift a))) (map shift l)
    others_apart a [] o p h = tt
    others_apart a (b ∷ l) o (p, ps) (h, hs) = (shift_apart a b o p h, others_apart a l o ps hs)

    others_own :
        (l : List A)
        → All (λ b. (id b == id new) ≡ false) l
        → HaveOwnPlaces l
        → HaveOwnPlaces (map shift l)
    others_own [] o h = tt
    others_own (a ∷ l) (o, os) (p, h) = (others_apart a l o os p, others_own l os h)

    put_clear :
        (a : A) (l : List A)
        → (id a == id new) ≡ false
        → NoRepeat (map id l)
        → All (IsAt (at a)) l
        → All (IsAt (at (shift a))) (put id new (map shift l))
    put_clear a [] o n h = (rw (at-shift a o) (ground (arith, new_place (at a))), tt)
    put_clear a (b ∷ l) o (f, n) (h, hs) = elim (Bool-cases (id b == id new)) [
      | inl same ↦
          let e = (eq_iff (id b) (id new)).0 same in
          let rest = outside (id new) l (subst (λ i. has (map id l) i ≡ false) e f) in
          simp (id-shift b, same)
            (rw (at-shift a o) (ground (arith, new_place (at a))), others_apart a l o rest hs)
      | inr other ↦ simp (id-shift b, other) (shift_apart a b o other h, put_clear a l o n hs)
    ]

    pub put_own :
        (l : List A)
        → NoRepeat (map id l)
        → HaveOwnPlaces l
        → HaveOwnPlaces (put id new (incremented moves move l))
    put_own [] n h = (tt, tt)
    put_own (a ∷ l) (f, n) (p, h) = elim (Bool-cases (id a == id new)) [
      | inl same ↦
          let e = (eq_iff (id a) (id new)).0 same in
          let rest = outside (id new) l (subst (λ i. has (map id l) i ≡ false) e f) in
          simp (id-shift a, same) (others_clear l rest, others_own l rest h)
      | inr other ↦ simp (id-shift a, other) (put_clear a l other n p, put_own l n h)
    ]

  module _ (new old : A) (stays : at old ≡ at new) where
    found-All :
        (P : A → Type 0) (l : List A) → find (λ a. id a == id new) l ≡ some old → All P l → P old
    found-All P [] h ps = cc
    found-All P (a ∷ l) h (p, ps) = elim (Bool-cases (id a == id new)) [
      | inl same ↦ subst P (some-eq (simp same at h)) p
      | inr other ↦ found-All P l (simp other at h) ps
    ]

    replaced_clear :
        (a : A) (l : List A)
        → IsAt (at a) old
        → All (IsAt (at a)) l
        → All (IsAt (at a)) (put id new l)
    replaced_clear a [] o h = (rw (sym stays) o, tt)
    replaced_clear a (b ∷ l) o (h, hs) = elim (Bool-cases (id b == id new)) [
      | inl same ↦ simp same (rw (sym stays) o, hs)
      | inr other ↦ simp other (h, replaced_clear a l o hs)
    ]

    -- A row that keeps its place replaces its old version.
    pub replaced_own :
        (l : List A)
        → find (λ a. id a == id new) l ≡ some old
        → HaveOwnPlaces l
        → HaveOwnPlaces (put id new l)
    replaced_own [] found h = (tt, tt)
    replaced_own (a ∷ l) found (p, h) = elim (Bool-cases (id a == id new)) [
      | inl same ↦
          let e : at a ≡ at new = ap at (some-eq (simp same at found)) ∙ stays in
          simp same (subst (λ n. All (IsAt n) l) e p, h)
      | inr other ↦
          let later : find (λ b. id b == id new) l ≡ some old = simp other at found in
          simp other
            (replaced_clear a l (found-All (IsAt (at a)) l later p) p, replaced_own l later h)
    ]
