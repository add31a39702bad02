-- ===== src/Cashback/Listing.antt =====
-- apps/cashback-service/src/cashback/cashback.service.ts: `listTransactions`. `ilike value pattern` is
-- PostgreSQL's comparison; a column that is NULL matches nothing.
use bumpa_achievement_system.Common.{
  String, Bool, false, ◌&&◌, ◌||◌, Option, ◌==◌, none, some, true,
}
use bumpa_achievement_system.Paging.{
  PagedTable, PageQuery, Paginated, list_page, if_given, search_pattern,
}
use bumpa_achievement_system.Cashback.Store.{
  CashbackTransaction, Column, undefined, null, value, TransactionStatus, status_eq,
}

-- cashback/dto/list-cashbacks-query.dto.ts
pub record ListCashbacksQuery : Type 0 where
  pub pages : PageQuery
  pub user_id : Option String
  pub status : Option TransactionStatus
  pub search : Option String

abbrev pub if_status : Option TransactionStatus → TransactionStatus → Bool
if_status none status = true
if_status (some wanted) status = status_eq status wanted

abbrev pub column_matches : (String → Bool) → Column String → Bool
column_matches p undefined = false
column_matches p null = false
column_matches p (value s) = p s

module _ (ilike : String → String → Bool) where
  -- buildTransactionWhere
  pub transaction_where : ListCashbacksQuery → CashbackTransaction → Bool
  transaction_where query t =
      if_given query.user_id (λ u. t.user_id == u)
      && (if_status query.status t.status
          && if_given query.search (λ s.
            ilike t.badge_name (search_pattern s)
            || (ilike t.user_id (search_pattern s)
                || column_matches (λ r. ilike r (search_pattern s)) t.provider_reference)))

  unfoldable pub list_transactions :
      (table : PagedTable CashbackTransaction)
      → ListCashbacksQuery
      → table.Table
      → Paginated CashbackTransaction
  unfolding transaction_where
  list_transactions table query t = list_page table query.pages (transaction_where query) t
