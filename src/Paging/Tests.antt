-- ===== src/Paging/Tests.antt =====
-- A list of numbers in pages of two.
use bumpa_achievement_system.Common.{
  take, drop, ℕ, ◌≡◌, ◌≤◌, refl, Bool, List, [], ◌∷◌, length, filter, leb, arith,
}
use bumpa_achievement_system.Paging.{PagedTable, list_page}
use bumpa_achievement_system.Paging.Complete.{page_query, items_from, pages_complete}

abbrev numbers : PagedTable ℕ
numbers = record {
  Table = List ℕ;
  rows = λ t. t;
  find_and_count = λ p skip n t. (take n (drop skip (filter p t)), length (filter p t));
  find_and_count-rows = λ p skip n t. refl;
}

abbrev odd_ones : List ℕ
odd_ones = 9 ∷ 2 ∷ 7 ∷ 5 ∷ 1 ∷ 8 ∷ []

abbrev large : ℕ → Bool
large n = leb 3 n

second_page : (list_page numbers (page_query 2 2) large odd_ones).items ≡ 5 ∷ 8 ∷ []
unfolding list_page
second_page = refl

pages_complete_example :
    (length (list_page numbers (page_query 2 2) large odd_ones).items ≤ 2)
    × (items_from numbers
          (list_page numbers (page_query 2 2) large odd_ones).meta.total_pages
          0
          2
          large
          odd_ones
        ≡ filter large odd_ones)
pages_complete_example = pages_complete numbers 2 2 large odd_ones (omega arith)
