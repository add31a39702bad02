-- ===== src/Paging.antt =====
-- The paged lists of the services: `listAchievements` and `listBadges` of
-- apps/loyalty-service/src/admin/admin-config.service.ts and `listTransactions` of
-- apps/cashback-service/src/cashback/cashback.service.ts. TypeORM's `findAndCount` is not in the
-- repository: an interface states what it answers.
pub mod Complete
mod Tests
use bumpa_achievement_system.Common.{
  ℕ, zero, suc, ◌+◌, ◌-◌, ◌*◌, ◌/◌, ◌≡◌, String, Bool, true, false, ◌&&◌, ◌||◌, Option, none, some,
  List, [], ◌∷◌, if◌then◌else◌, max, length, filter, take, drop, ◌==◌, concat_text,
}

-- The rows of a table in the order that its list asks for, and what a query with a condition, `skip`
-- and `take` answers: a window of the rows that meet the condition, and how many do.
pub record PagedTable (A : Type 0) : Type 1 where
  pub Table : Type 0
  pub rows : Table → List A
  pub find_and_count : (A → Bool) → ℕ → ℕ → Table → List A × ℕ
  pub find_and_count-rows :
      (p : A → Bool) (skip n : ℕ) (t : Table)
      → find_and_count p skip n t
        ≡ (take n (drop skip (filter p (rows t))), length (filter p (rows t)))

pub record PageQuery : Type 0 where
  pub page : Option ℕ
  pub limit : Option ℕ

pub record PageMeta : Type 0 where
  pub page : ℕ
  pub limit : ℕ
  pub total : ℕ
  pub total_pages : ℕ

pub record Paginated (A : Type 0) : Type 0 where
  pub items : List A
  pub meta : PageMeta

abbrev or_default : ℕ → Option ℕ → ℕ
or_default n none = n
or_default n (some k) = k

abbrev pub page_of : PageQuery → ℕ
page_of query = or_default 1 query.page

abbrev pub limit_of : PageQuery → ℕ
limit_of query = or_default 20 query.limit

-- Math.max(1, Math.ceil(total / limit))
abbrev pub total_pages_of : ℕ → ℕ → ℕ
total_pages_of total limit = max 1 ((total + (limit - 1)) / limit)

module _ {A : Type 0} (table : PagedTable A) where
  unfoldable pub list_page : PageQuery → (A → Bool) → table.Table → Paginated A
  list_page query condition t =
      let page = page_of query in
      let limit = limit_of query in
      let (items, total) = table.find_and_count condition ((page - 1) * limit) limit t in
      record {
        items = items;
        meta = record {
          page = page;
          limit = limit;
          total = total;
          total_pages = total_pages_of total limit;
        };
      }

-- A condition of the query that is left out, or is the empty text, is no condition.
abbrev pub if_given : Option String → (String → Bool) → Bool
if_given none p = true
if_given (some s) p = if s == "" then true else p s

abbrev pub if_defined : Option Bool → (Bool → Bool) → Bool
if_defined none p = true
if_defined (some b) p = p b

abbrev pub bool_eq : Bool → Bool → Bool
bool_eq true b = b
bool_eq false true = false
bool_eq false false = true

-- `%${search}%`
abbrev pub search_pattern : String → String
search_pattern search = concat_text "%" (concat_text search "%")
