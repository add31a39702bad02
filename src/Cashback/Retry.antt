-- ===== src/Cashback/Retry.antt =====
-- apps/cashback-service/src/cashback/cashback.service.ts: `retryPayment`, `retryFailedTransaction` and
-- `retryEligibleFailedTransactions`. Statements on the database are taken to succeed.
pub mod Due
pub mod Manual
pub mod Scan
use bumpa_achievement_system.Common.{
  ℕ, ◌+◌, String, Bool, true, false, not, ◌||◌, Option, none, some, List, [], ◌∷◌, ◌++◌,
  if◌then◌else◌, ◌==◌, ◌&&◌, filter, ltb, leb,
}
use bumpa_achievement_system.Events.{
  Env, BadgeUnlockedEvent, badge_unlocked, create_domain_event, EntityIdPrefix,
}
use bumpa_achievement_system.Outbox.{OutboxRepository}
use bumpa_achievement_system.Cashback.Store.{
  CashbackDatabase, CashbackTransaction, PayoutAccount, Column, undefined, null, value,
  TransactionStatus, status_eq,
}
use bumpa_achievement_system.Cashback.Jobs.{CashbackState}

-- RetryBankDetailsOverride
pub record RetryBankDetailsOverride : Type 0 where
  pub bank_account_number : Option String
  pub bank_code : Option String

-- How retryFailedTransaction ends: it returns, or it throws one of its three exceptions.
pub data RetryAnswer : Type 0 where
  queued transaction_not_found not_failed no_bank_details : RetryAnswer

abbrev pub is_given : Option String → Bool
is_given none = false
is_given (some s) = not (s == "")

-- `override?.bankAccountNumber && override.bankCode`: both are given, and not empty.
abbrev pub both_given : Option String → Option String → Option (String × String)
both_given none code = none
both_given (some number) none = none
both_given (some number) (some code) =
    if number == "" || code == "" then none else some (number, code)

abbrev pub given_details : Option RetryBankDetailsOverride → Option (String × String)
given_details none = none
given_details (some o) = both_given o.bank_account_number o.bank_code

-- The statement that puts the row back.
abbrev pub reopened : CashbackTransaction → CashbackTransaction
reopened transaction = record transaction {
  status = TransactionStatus.pending;
  failure_reason = null;
  next_retry_at = null;
}

-- The conditions of the scan's query on a column: `retryable: true`, IsNull() and LessThanOrEqual.
abbrev is_true : Column Bool → Bool
is_true undefined = false
is_true null = false
is_true (value b) = b

abbrev is_null : Column ℕ → Bool
is_null undefined = true
is_null null = true
is_null (value t) = false

abbrev is_at_most : ℕ → Column ℕ → Bool
is_at_most now undefined = false
is_at_most now null = false
is_at_most now (value t) = leb t now

-- The `where` of the scan's query: one of two conditions.
unfoldable pub retry_where : (max_auto_retries now : ℕ) → CashbackTransaction → Bool
retry_where max_auto_retries now r =
    (status_eq r.status TransactionStatus.failed
      && (is_true r.retryable && (ltb r.retry_count max_auto_retries && is_null r.next_retry_at)))
    || (status_eq r.status TransactionStatus.failed
        && (is_true r.retryable
            && (ltb r.retry_count max_auto_retries && is_at_most now r.next_retry_at)))

module _ (env : Env) where
  correlation_or : Column String → ℕ → String
  correlation_or undefined n = env.create_readable_id EntityIdPrefix.event (n + 1)
  correlation_or null n = env.create_readable_id EntityIdPrefix.event (n + 1)
  correlation_or (value c) n = c

  -- buildRetryEvent; it draws at n and, for a missing correlation, at n + 1.
  pub build_retry_event : CashbackTransaction → PayoutAccount → ℕ → BadgeUnlockedEvent
  unfolding correlation_or
  build_retry_event transaction account n =
      create_domain_event badge_unlocked
        (record {
          badge_name = transaction.badge_name;
          reward_amount_kobo = some transaction.amount_kobo;
          reward_currency = "NGN";
          user = record {
            id = transaction.user_id;
            email = "";
            name = account.user_name;
            bank_account_number = some account.bank_account_number;
            bank_code = some account.bank_code;
          };
        })
        (correlation_or transaction.correlation_id n)
        (env.create_readable_id EntityIdPrefix.event n) (env.now n)

module _ (database : CashbackDatabase) (repository : OutboxRepository) (env : Env)
    (provider_name : String) where
  open database use {
    find_transaction, find_account, save_account, update_in, reset_retry_count, transactions,
  }

  abbrev State : Type 0
  State = CashbackState database repository

  retry_found : Option CashbackTransaction → BadgeUnlockedEvent → State → State × Bool
  retry_found none e s = (s, false)
  retry_found (some transaction) e s =
      if not (status_eq transaction.status TransactionStatus.failed) then (s, true) else (
        record s {
          tables = update_in transaction.id TransactionStatus.failed reopened s.tables;
          queue = s.queue ++ record { transaction_id = transaction.id; event = e } ∷ [];
        },
        true,
      )

  -- retryPayment; the Boolean tells whether it returned, else it threw: the row is not there.
  unfoldable pub retry_payment : String → BadgeUnlockedEvent → State → State × Bool
  unfolding retry_found
  retry_payment transaction_id e s = retry_found (find_transaction transaction_id s.tables) e s

  account_from : CashbackTransaction → Option PayoutAccount → String → String → ℕ → PayoutAccount
  account_from transaction none number code n = record {
    id = env.create_readable_id EntityIdPrefix.payout_account n;
    user_id = transaction.user_id;
    user_name = transaction.user_id;
    bank_account_number = number;
    bank_code = code;
    provider = provider_name;
    provider_recipient_code = undefined;
  }
  account_from transaction (some old) number code n = record old {
    user_id = transaction.user_id;
    bank_account_number = number;
    bank_code = code;
    provider = provider_name;
  }

  -- The account to pay to, saved when it is overridden.
  override_account :
      CashbackTransaction
      → Option PayoutAccount
      → Option (String × String)
      → State
      → Option PayoutAccount × State
  unfolding account_from
  override_account transaction account none s = (account, s)
  override_account transaction account (some (number, code)) s =
      let a = account_from transaction account number code s.drawn in
      (some a, record s { tables = save_account a s.tables; drawn = s.drawn + 1 })

  reset_if : Option (String × String) → String → State → State
  reset_if none id s = s
  reset_if (some details) id s = record s { tables = reset_retry_count id s.tables }

  retry_with :
      CashbackTransaction
      → Option (String × String)
      → Option PayoutAccount × State
      → State × RetryAnswer
  unfolding reset_if retry_payment build_retry_event
  retry_with transaction details (none, s) = (s, no_bank_details)
  retry_with transaction details (some account, s) =
      if account.bank_account_number == "" || account.bank_code == ""
      then (s, no_bank_details)
      else let s' = reset_if details transaction.id s in
        (
          (retry_payment transaction.id (build_retry_event env transaction account s'.drawn)
              (record s' { drawn = s'.drawn + 2 })).0,
          queued,
        )

  manual_found :
      Option CashbackTransaction → Option RetryBankDetailsOverride → State → State × RetryAnswer
  unfolding override_account retry_with
  manual_found none override s = (s, transaction_not_found)
  manual_found (some transaction) override s =
      if not (status_eq transaction.status TransactionStatus.failed)
      then (s, not_failed)
      else retry_with transaction (given_details override) (
          override_account transaction (find_account transaction.user_id s.tables)
            (given_details override) s)

  -- retryFailedTransaction
  unfoldable pub retry_failed_transaction :
      String → Option RetryBankDetailsOverride → State → State × RetryAnswer
  unfolding manual_found
  retry_failed_transaction transaction_id override s =
      manual_found (find_transaction transaction_id s.tables) override s

  -- One turn of the loop of the scan; the count goes up when a job was queued.
  retry_to : CashbackTransaction → Option PayoutAccount → State × ℕ → State × ℕ
  unfolding retry_payment build_retry_event
  retry_to transaction none (s, retried) = (s, retried)
  retry_to transaction (some account) (s, retried) =
      if account.bank_account_number == "" || account.bank_code == ""
      then (s, retried)
      else let (s', ok) =
          retry_payment transaction.id (build_retry_event env transaction account s.drawn)
            (record s { drawn = s.drawn + 2 }) in
        (s', if ok then retried + 1 else retried)

  pub retry_each : List CashbackTransaction → State × ℕ → State × ℕ
  unfolding retry_to
  retry_each [] (s, retried) = (s, retried)
  retry_each (transaction ∷ rest) (s, retried) =
      retry_each rest
        (retry_to transaction (find_account transaction.user_id s.tables) (s, retried))

  -- retryEligibleFailedTransactions; `running` is the flag retryScanRunning, the last argument the
  -- configured maxAutoRetries.
  unfoldable pub retry_eligible_failed_transactions : (running : Bool) → ℕ → State → State × ℕ
  unfolding retry_each retry_where
  retry_eligible_failed_transactions running max_auto_retries s =
      if running
      then (s, 0)
      else retry_each
          (filter (retry_where max_auto_retries (env.now s.drawn)) (transactions s.tables)) (s, 0)
