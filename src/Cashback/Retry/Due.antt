-- ===== src/Cashback/Retry/Due.antt =====
-- Which rows the scan retries, column by column.
use bumpa_achievement_system.Common.{
  ℕ, ◌≡◌, refl, Bool, true, false, not, ◌&&◌, Option, none, some, List, [], ◌∷◌, ◌==◌, Bool-cases,
  inl, inr, arith, filter, ltb, leb,
}
use bumpa_achievement_system.Cashback.Store.{
  CashbackTransaction, PayoutAccount, TransactionStatus, status_eq, Column, undefined, null, value,
}
use bumpa_achievement_system.Cashback.Retry.{retry_where}

-- The row is FAILED and retryable, below the limit, and has no time of the next try after `now`.
abbrev pub is_failed : TransactionStatus → Bool
is_failed TransactionStatus.failed = true
is_failed TransactionStatus.pending = false
is_failed TransactionStatus.processing = false
is_failed TransactionStatus.successful = false

abbrev pub is_retryable : Column Bool → Bool
is_retryable (value true) = true
is_retryable (value false) = false
is_retryable undefined = false
is_retryable null = false

abbrev pub is_due : ℕ → Column ℕ → Bool
is_due now (value t) = leb t now
is_due now undefined = true
is_due now null = true

-- The user has an account with a number and a code.
abbrev pub can_be_paid : Option PayoutAccount → Bool
can_be_paid none = false
can_be_paid (some a) = not (a.bank_account_number == "") && not (a.bank_code == "")

abbrev pub is_retried : (most now : ℕ) → CashbackTransaction → Option PayoutAccount → Bool
is_retried most now r account =
    is_failed r.status
    && (is_retryable r.retryable
        && (ltb r.retry_count most && (is_due now r.next_retry_at && can_be_paid account)))

pub is_failed→eq : (x : TransactionStatus) → status_eq x TransactionStatus.failed ≡ is_failed x
is_failed→eq TransactionStatus.failed = refl
is_failed→eq TransactionStatus.pending = refl
is_failed→eq TransactionStatus.processing = refl
is_failed→eq TransactionStatus.successful = refl

pub is_failed-status : (x : TransactionStatus) → is_failed x ≡ true → x ≡ TransactionStatus.failed
is_failed-status TransactionStatus.failed h = refl
is_failed-status TransactionStatus.pending h = cc
is_failed-status TransactionStatus.processing h = cc
is_failed-status TransactionStatus.successful h = cc

-- The condition of the query, and the account, on the columns apart.
pub retry_where-split :
    (most now : ℕ) (r : CashbackTransaction)
    → retry_where most now r ≡ (
        is_failed r.status
        && (is_retryable r.retryable && (ltb r.retry_count most && is_due now r.next_retry_at)))
unfolding retry_where
retry_where-split most now r = by_columns r.retryable r.next_retry_at
  where
    by_columns :
        (flag : Column Bool) (time : Column ℕ)
        → retry_where most now (record r { retryable = flag; next_retry_at = time }) ≡ (
            is_failed r.status
            && (is_retryable flag && (ltb r.retry_count most && is_due now time)))
    by_columns undefined undefined = ground (arith, is_failed→eq r.status)
    by_columns undefined null = ground (arith, is_failed→eq r.status)
    by_columns undefined (value t) = ground (arith, is_failed→eq r.status)
    by_columns null undefined = ground (arith, is_failed→eq r.status)
    by_columns null null = ground (arith, is_failed→eq r.status)
    by_columns null (value t) = ground (arith, is_failed→eq r.status)
    by_columns (value true) undefined = ground (arith, is_failed→eq r.status)
    by_columns (value true) null = ground (arith, is_failed→eq r.status)
    by_columns (value true) (value t) = ground (arith, is_failed→eq r.status)
    by_columns (value false) undefined = ground (arith, is_failed→eq r.status)
    by_columns (value false) null = ground (arith, is_failed→eq r.status)
    by_columns (value false) (value t) = ground (arith, is_failed→eq r.status)

module _ {A : Type 0} where
  pub filter-filter :
      (p q r : A → Bool) (l : List A)
      → ((a : A) → r a ≡ (p a && q a))
      → filter q (filter p l) ≡ filter r l
  filter-filter p q r [] e = refl
  filter-filter p q r (a ∷ l) e = elim (Bool-cases (p a)) [
    | inl y ↦ elim (Bool-cases (q a)) [
      | inl z ↦ simp (y, z, e, filter-filter p q r l e)
      | inr z ↦ simp (y, z, e, filter-filter p q r l e)
    ]
    | inr n ↦ simp (n, e, filter-filter p q r l e)
  ]
