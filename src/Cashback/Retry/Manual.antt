-- ===== src/Cashback/Retry/Manual.antt =====
-- Retries that an administrator asks for.
use text.Mathlib.TextPositions.{eq_refl}
use bumpa_achievement_system.Common.{
  ℕ, ◌≡◌, ◌≢◌, refl, String, Bool, false, ◌||◌, Option, none, some, [], ◌∷◌, ◌++◌, ◌==◌, Bool-cases,
  inl, inr, arith,
}
use bumpa_achievement_system.Events.{Env, BadgeUnlockedEvent}
use bumpa_achievement_system.Outbox.{OutboxRepository}
use bumpa_achievement_system.Cashback.Store.{
  CashbackDatabase, CashbackTransaction, PayoutAccount, TransactionStatus, status_eq, null,
}
use bumpa_achievement_system.Cashback.Jobs.{CashbackState}
use bumpa_achievement_system.Cashback.Retry.{
  RetryBankDetailsOverride, RetryAnswer, queued, given_details, both_given, reopened, retry_found,
  retry_payment, account_from, override_account, retry_with, manual_found, retry_failed_transaction,
}

-- Details that are given are not empty.
both_given-given :
    (a b : Option String) (n c : String)
    → both_given a b ≡ some (n, c)
    → (n == "" || c == "") ≡ false
both_given-given none b n c h = cc
both_given-given (some m) none n c h = cc
both_given-given (some m) (some d) n c h = ground (arith, h)

given_details-given :
    (o : Option RetryBankDetailsOverride) (n c : String)
    → given_details o ≡ some (n, c)
    → (n == "" || c == "") ≡ false
given_details-given none n c h = cc
given_details-given (some o) n c h = both_given-given o.bank_account_number o.bank_code n c h

module _ (database : CashbackDatabase) (repository : OutboxRepository) (env : Env)
    (provider_name : String) where
  open database use {find_transaction}

  abbrev State : Type 0
  State = CashbackState database repository

  abbrev pub retry : String → BadgeUnlockedEvent → State → State × Bool
  retry = retry_payment database repository env provider_name

  -- retryPayment on a row that is FAILED makes it PENDING with no reason of failure and no time of the
  -- next try, leaves its other columns, and adds exactly one job for it.
  pub retry_payment_reopens :
      (id : String) (e : BadgeUnlockedEvent) (s : State) (r : CashbackTransaction)
      → find_transaction id s.tables ≡ some r
      → r.status ≡ TransactionStatus.failed
      → (find_transaction id (retry id e s).0.tables
          ≡ some (record r {
            status = TransactionStatus.pending;
            failure_reason = null;
            next_retry_at = null;
          }))
        × ((retry id e s).0.queue ≡ s.queue ++ record { transaction_id = id; event = e } ∷ [])
  unfolding retry_payment retry_found
  retry_payment_reopens id e s r found is_failed =
      let own = database.find-id id s.tables r found in
      (
        simp (found, is_failed, own, database.find-update _ _ _ reopened _ (λ r. refl), eq_refl),
        simp (found, is_failed, own),
      )

  abbrev pub retry_manually : String → Option RetryBankDetailsOverride → State → State × RetryAnswer
  retry_manually = retry_failed_transaction database repository env provider_name

  retry_with-refused :
      (r : CashbackTransaction) (d : Option (String × String)) (a : Option PayoutAccount)
      (s : State)
      → (retry_with database repository env provider_name r d (a, s)).1 ≢ queued
      → (retry_with database repository env provider_name r d (a, s)).0 ≡ s
  unfolding retry_with
  retry_with-refused r d none s h = refl
  retry_with-refused r d (some a) s h =
      elim (Bool-cases (a.bank_account_number == "" || a.bank_code == "")) [
        | inl blank ↦ simp blank
        | inr given ↦ absurd (h (simp given))
      ]

  account_from-details :
      (r : CashbackTransaction) (a : Option PayoutAccount) (n c : String) (i : ℕ)
      → ((account_from database repository env provider_name r a n c i).bank_account_number ≡ n)
        × ((account_from database repository env provider_name r a n c i).bank_code ≡ c)
  unfolding account_from
  account_from-details r none n c i = (refl, refl)
  account_from-details r (some a) n c i = (refl, refl)

  retry_with-overridden :
      (r : CashbackTransaction) (n c : String) (a : PayoutAccount) (s : State)
      → (a.bank_account_number ≡ n) × (a.bank_code ≡ c)
      → (n == "" || c == "") ≡ false
      → (retry_with database repository env provider_name r (some (n, c)) (some a, s)).1 ≡ queued
  unfolding retry_with
  retry_with-overridden r n c a s (number, code) given = simp (number, code, given)

  override-refused :
      (r : CashbackTransaction) (d : Option (String × String)) (a : Option PayoutAccount)
      (s : State)
      → ((n c : String) → d ≡ some (n, c) → (n == "" || c == "") ≡ false)
      → (retry_with database repository env provider_name r d
          (override_account database repository env provider_name r a d s)).1
        ≢ queued
      → (retry_with database repository env provider_name r d
          (override_account database repository env provider_name r a d s)).0
        ≡ s
  unfolding override_account
  override-refused r none a s given h = retry_with-refused r none a s h
  override-refused r (some (n, c)) a s given h = absurd (
      h (
        retry_with-overridden r n c
          (account_from database repository env provider_name r a n c s.drawn) _
          (account_from-details r a n c s.drawn) (given n c refl)))

  found-refused :
      (r : Option CashbackTransaction) (o : Option RetryBankDetailsOverride) (s : State)
      → (manual_found database repository env provider_name r o s).1 ≢ queued
      → (manual_found database repository env provider_name r o s).0 ≡ s
  unfolding manual_found
  found-refused none o s h = refl
  found-refused (some r) o s h = elim (Bool-cases (status_eq r.status TransactionStatus.failed)) [
    | inl is_failed ↦ simp is_failed (
        override-refused r (given_details o) (database.find_account r.user_id s.tables) s
          (given_details-given o) (simp is_failed at h))
    | inr other ↦ simp other
  ]

  -- A retry by hand that is not queued (there is no such row, it is not FAILED, or there are no bank
  -- details) leaves everything as it was: no account is saved, no count is reset, no job is added.
  pub retry_failed_transaction_refused :
      (id : String) (o : Option RetryBankDetailsOverride) (s : State)
      → (retry_manually id o s).1 ≢ queued
      → (retry_manually id o s).0 ≡ s
  unfolding retry_failed_transaction
  retry_failed_transaction_refused id o s h = found-refused (find_transaction id s.tables) o s h
