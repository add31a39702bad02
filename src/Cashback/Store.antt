-- ===== src/Cashback/Store.antt =====
-- apps/cashback-service/src/entities: the rows of cashback_db, and the repositories over them, which
-- are TypeORM over PostgreSQL and not in the repository. What the code relies on is stated as laws.
use mathlib.Core.List.{Memᴰ}
use bumpa_achievement_system.Common.{
  ℕ, ◌≡◌, String, Bool, true, false, Option, none, some, List, if◌then◌else◌, ◌==◌, ◌||◌, All, map,
  NoRepeat,
}
use bumpa_achievement_system.Events.{CashbackFailureCode}

-- A property of an entity: unset, null, or a value. A row that is read has no property unset.
pub data Column {ℓ} (A : Type ℓ) : Type ℓ where
  undefined null : Column A
  value : A → Column A

-- `column ?? undefined`
abbrev pub of_column {ℓ} : {A : Type ℓ} → Column A → Option A
of_column undefined = none
of_column null = none
of_column (value a) = some a

-- An optional property that is assigned as it is.
abbrev pub to_column {ℓ} : {A : Type ℓ} → Option A → Column A
to_column none = undefined
to_column (some a) = value a

-- PaymentStatus and CashbackProcessingStatus.
pub data TransactionStatus : Type 0 where
  pending processing successful failed : TransactionStatus

abbrev pub status_eq : TransactionStatus → TransactionStatus → Bool
status_eq pending pending = true
status_eq processing processing = true
status_eq successful successful = true
status_eq failed failed = true
status_eq _ _ = false

pub record CashbackTransaction : Type 0 where
  pub id : String
  pub user_id : String
  pub badge_name : String
  pub amount_kobo : ℕ
  pub status : TransactionStatus
  pub provider : String
  pub provider_reference : Column String
  pub provider_recipient_code : Column String
  pub correlation_id : Column String
  pub failure_reason : Column String
  pub failure_code : Column CashbackFailureCode
  pub retryable : Column Bool
  pub retry_count : ℕ
  pub next_retry_at : Column ℕ

pub record PayoutAccount : Type 0 where
  pub id : String
  pub user_id : String
  pub user_name : String
  pub bank_account_number : String
  pub bank_code : String
  pub provider : String
  pub provider_recipient_code : Column String

-- `save` writes a column unless it is undefined: then the row keeps what it has, a new row gets null.
abbrev pub write {ℓ} : {A : Type ℓ} → Column A → Column A → Column A
write old undefined = old
write old null = null
write old (value a) = value a

abbrev pub write_new {ℓ} : {A : Type ℓ} → Column A → Column A
write_new c = write null c

abbrev pub stored : Option CashbackTransaction → CashbackTransaction → CashbackTransaction
stored none r = record r {
  provider_reference = write_new r.provider_reference;
  provider_recipient_code = write_new r.provider_recipient_code;
  correlation_id = write_new r.correlation_id;
  failure_reason = write_new r.failure_reason;
  failure_code = write_new r.failure_code;
  retryable = write_new r.retryable;
  next_retry_at = write_new r.next_retry_at;
}
stored (some old) r = record r {
  provider_reference = write old.provider_reference r.provider_reference;
  provider_recipient_code = write old.provider_recipient_code r.provider_recipient_code;
  correlation_id = write old.correlation_id r.correlation_id;
  failure_reason = write old.failure_reason r.failure_reason;
  failure_code = write old.failure_code r.failure_code;
  retryable = write old.retryable r.retryable;
  next_retry_at = write old.next_retry_at r.next_retry_at;
}

abbrev pub stored_account : Option PayoutAccount → PayoutAccount → PayoutAccount
stored_account none r = record r { provider_recipient_code = write_new r.provider_recipient_code }
stored_account (some old) r = record r {
  provider_recipient_code = write old.provider_recipient_code r.provider_recipient_code;
}

-- update({ id, status }, patch), on the row of the id.
abbrev pub patched :
    TransactionStatus
    → (CashbackTransaction → CashbackTransaction)
    → Option CashbackTransaction
    → Option CashbackTransaction
patched s patch none = none
patched s patch (some r) = if status_eq r.status s then some (patch r) else some r

abbrev pub in_status : TransactionStatus → Option CashbackTransaction → Bool
in_status s none = false
in_status s (some r) = status_eq r.status s

pub record CashbackDatabase : Type 1 where
  pub Tables : Type 0
  pub find_transaction : String → Tables → Option CashbackTransaction  -- by the primary key
  pub find_by_badge : (user_id badge_name : String) → Tables → Option CashbackTransaction
  pub find_by_reference : String → Tables → Option CashbackTransaction
  pub find_account : (user_id : String) → Tables → Option PayoutAccount
  pub processed : String → Tables → Bool
  pub transactions : Tables → List CashbackTransaction  -- all rows, in the order of a query
  pub save_transaction : CashbackTransaction → Tables → Tables
  pub save_account : PayoutAccount → Tables → Tables
  pub save_processed : String → Tables → Tables
  -- update({ id, status }, patch); `affected` tells whether it finds a row.
  pub update_in :
      String → TransactionStatus → (CashbackTransaction → CashbackTransaction) → Tables → Tables
  pub affected : String → TransactionStatus → Tables → Bool
  pub reset_retry_count : String → Tables → Tables  -- update({ id }, { retryCount: 0 })
  pub find-save :
      (j : String) (r : CashbackTransaction) (t : Tables)
      → find_transaction j (save_transaction r t)
        ≡ (if r.id == j then some (stored (find_transaction j t) r) else find_transaction j t)
  pub find-update :
      (j i : String) (s : TransactionStatus) (patch : CashbackTransaction → CashbackTransaction)
      (t : Tables)
      → ((r : CashbackTransaction) → (patch r).id ≡ r.id)
      → find_transaction j (update_in i s patch t)
        ≡ (if i == j then patched s patch (find_transaction j t) else find_transaction j t)
  pub find-save_account :
      (j : String) (a : PayoutAccount) (t : Tables)
      → find_transaction j (save_account a t) ≡ find_transaction j t
  pub find-save_processed :
      (j i : String) (t : Tables) → find_transaction j (save_processed i t) ≡ find_transaction j t
  pub affected_iff :
      (i : String) (s : TransactionStatus) (t : Tables)
      → affected i s t ≡ in_status s (find_transaction i t)
  pub find-id :
      (i : String) (t : Tables) (r : CashbackTransaction) → find_transaction i t ≡ some r → r.id ≡ i
  pub reference-found :
      (x : String) (t : Tables) (r : CashbackTransaction)
      → find_by_reference x t ≡ some r
      → (find_transaction r.id t ≡ some r) × (r.provider_reference ≡ value x)
  pub processed-save_processed :
      (i j : String) (t : Tables) → processed i (save_processed j t) ≡ (j == i || processed i t)
  pub transactions-found :
      (t : Tables)
      → All (λ (r : CashbackTransaction). find_transaction r.id t ≡ some r) (transactions t)
  pub transactions-complete :
      (i : String) (t : Tables) (r : CashbackTransaction)
      → find_transaction i t ≡ some r
      → Memᴰ r (transactions t)
  pub transactions-once :
      (t : Tables) → NoRepeat (map (λ (r : CashbackTransaction). r.id) (transactions t))
  pub find_account-update :
      (u i : String) (s : TransactionStatus) (patch : CashbackTransaction → CashbackTransaction)
      (t : Tables)
      → find_account u (update_in i s patch t) ≡ find_account u t
