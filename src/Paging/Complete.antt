-- ===== src/Paging/Complete.antt =====
-- The pages of a list are all of it.
use mathlib.Core.Path.{◌≡⟨◌⟩◌, ◌∎}
use bumpa_achievement_system.Common.{
  take, drop, ℕ, zero, suc, ◌+◌, ◌-◌, ◌*◌, ◌≡◌, ◌≤◌, ◌<◌, refl, sym, ap, ◌∙◌, Bool, some, List, [],
  ◌∷◌, ◌++◌, length, filter, arith,
}
use bumpa_achievement_system.Paging.{PagedTable, PageQuery, total_pages_of, list_page}

succ_add : (a b : ℕ) → suc (a + b) ≡ suc a + b
succ_add a b = omega arith

module _ {A : Type 0} where
  take-nil : (n : ℕ) → take {A = A} n [] ≡ []
  take-nil zero = refl
  take-nil (suc n) = refl

  drop-nil : (n : ℕ) → drop {A = A} n [] ≡ []
  drop-nil zero = refl
  drop-nil (suc n) = refl

  take-append : (a b : ℕ) (l : List A) → take a l ++ take b (drop a l) ≡ take (a + b) l
  take-append zero b l = ap (λ n. take n l) (omega arith)
  take-append (suc a) b [] = take-nil b ∙ sym (take-nil (suc a + b))
  take-append (suc a) b (x ∷ l) =
      ap (λ (r : List A). x ∷ r) (take-append a b l) ∙ ap (λ n. take n (x ∷ l)) (succ_add a b)

  drop-drop : (a b : ℕ) (l : List A) → drop b (drop a l) ≡ drop (a + b) l
  drop-drop zero b l = ap (λ n. drop n l) (omega arith)
  drop-drop (suc a) b [] = drop-nil b ∙ sym (drop-nil (suc a + b))
  drop-drop (suc a) b (x ∷ l) = drop-drop a b l ∙ ap (λ n. drop n (x ∷ l)) (succ_add a b)

  take_all : (n : ℕ) (l : List A) → length l ≤ n → take n l ≡ l
  take_all n [] h = take-nil n
  take_all zero (x ∷ l) h = absurd (omega arith)
  take_all (suc n) (x ∷ l) h = ap (λ (r : List A). x ∷ r) (take_all n l (omega arith))

  length-take : (n : ℕ) (l : List A) → length (take n l) ≤ n
  length-take zero l = omega arith
  length-take (suc n) [] = omega arith
  length-take (suc n) (x ∷ l) = omega (arith, length-take n l)

abbrev pub page_query : ℕ → ℕ → PageQuery
page_query page limit = record { page = some page; limit = some limit }

module _ {A : Type 0} (table : PagedTable A) where
  -- The items of `n` pages from page `k + 1` on.
  pub items_from : ℕ → ℕ → ℕ → (A → Bool) → table.Table → List A
  items_from zero k limit p t = []
  items_from (suc n) k limit p t =
      (list_page table (page_query (k + 1) limit) p t).items ++ items_from n (k + 1) limit p t

  abbrev matching : (A → Bool) → table.Table → List A
  matching p t = filter p (table.rows t)

  page_items :
      (k limit : ℕ) (p : A → Bool) (t : table.Table)
      → (list_page table (page_query (k + 1) limit) p t).items
        ≡ take limit (drop (k * limit) (matching p t))
  unfolding list_page
  page_items k limit p t =
      let e : k + 1 - 1 ≡ k = omega arith in simp (table.find_and_count-rows, e)

  items_from_lem :
      (n k limit : ℕ) (p : A → Bool) (t : table.Table)
      → items_from n k limit p t ≡ take (n * limit) (drop (k * limit) (matching p t))
  unfolding items_from
  items_from_lem zero k limit p t =
      let none_left : 0 ≡ 0 * limit = omega arith in
      ap (λ m. take m (drop (k * limit) (matching p t))) none_left
  items_from_lem (suc n) k limit p t =
      let l = matching p t in
      let next : k * limit + limit ≡ (k + 1) * limit = grind arith in
      let more : limit + n * limit ≡ suc n * limit = grind arith in
      (list_page table (page_query (k + 1) limit) p t).items ++ items_from n (k + 1) limit p t
      ≡⟨ ap (λ (r : List A). r ++ items_from n (k + 1) limit p t) (page_items k limit p t) ⟩
        take limit (drop (k * limit) l) ++ items_from n (k + 1) limit p t
      ≡⟨ ap (λ (r : List A). take limit (drop (k * limit) l) ++ r)
          (items_from_lem n (k + 1) limit p t) ⟩
        take limit (drop (k * limit) l) ++ take (n * limit) (drop ((k + 1) * limit) l)
      ≡⟨ ap (λ m. take limit (drop (k * limit) l) ++ take (n * limit) (drop m l)) (sym next) ⟩
        take limit (drop (k * limit) l) ++ take (n * limit) (drop (k * limit + limit) l)
      ≡⟨ ap (λ (r : List A). take limit (drop (k * limit) l) ++ take (n * limit) r)
          (sym (drop-drop (k * limit) limit l)) ⟩
        take limit (drop (k * limit) l) ++ take (n * limit) (drop limit (drop (k * limit) l))
      ≡⟨ take-append limit (n * limit) (drop (k * limit) l) ⟩
        take (limit + n * limit) (drop (k * limit) l)
      ≡⟨ ap (λ m. take m (drop (k * limit) l)) more ⟩ take (suc n * limit) (drop (k * limit) l) ∎

  enough_pages : (total limit : ℕ) → 0 < limit → total ≤ total_pages_of total limit * limit
  enough_pages total limit h = grind arith

  -- A page holds at most the limit, and the pages from the first to the `totalPages` that each of
  -- them names, one after the other, are the rows that meet the condition, each once and in order.
  pub pages_complete :
      (page limit : ℕ) (p : A → Bool) (t : table.Table)
      → 0 < limit
      → (length (list_page table (page_query page limit) p t).items ≤ limit)
        × (items_from (list_page table (page_query page limit) p t).meta.total_pages 0 limit p t
            ≡ filter p (table.rows t))
  unfolding list_page
  pages_complete page limit p t h =
      let l = matching p t in
      let all_shown : length l ≤ total_pages_of (length l) limit * limit =
        enough_pages (length l) limit h in
      let none_skipped : 0 * limit ≡ 0 = omega arith in
      (
        simp table.find_and_count-rows (length-take limit (drop ((page - 1) * limit) l)),
        simp table.find_and_count-rows (
            items_from_lem (total_pages_of (length l) limit) 0 limit p t
            ∙ ap (λ m. take (total_pages_of (length l) limit * limit) (drop m l)) none_skipped
            ∙ take_all (total_pages_of (length l) limit * limit) l all_shown),
      )
