-- ===== src/Cashback/Tests/Retries.antt =====
-- Retries on concrete data.
use bumpa_achievement_system.Common.{
  ◌≡◌, ◌≢◌, refl, false, Option, some, List, [], ◌∷◌, ◌++◌, length, map, filter,
}
use bumpa_achievement_system.Outbox.Tests.Rows.{repository}
use bumpa_achievement_system.Cashback.Store.{CashbackTransaction, TransactionStatus, null}
use bumpa_achievement_system.Cashback.Jobs.{CashbackJob}
use bumpa_achievement_system.Cashback.Retry.{
  RetryBankDetailsOverride, queued, retry_payment, retry_failed_transaction,
  retry_eligible_failed_transactions,
}
use bumpa_achievement_system.Cashback.Retry.Manual.{retry_payment_reopens}
use bumpa_achievement_system.Cashback.Retry.Due.{is_retried}
use bumpa_achievement_system.Cashback.Retry.Scan.{retry_eligible_failed_transactions_lem}
use bumpa_achievement_system.Cashback.Tests.{env, unlocked, paid, failed, state}
use bumpa_achievement_system.Cashback.Tests.Tables.{database}

retry_payment_reopens_example :
    (database.find_transaction "t1"
        (retry_payment database repository env "paystack" "t1" unlocked (state failed)).0.tables
      ≡ some (record failed {
        status = TransactionStatus.pending;
        failure_reason = null;
        next_retry_at = null;
      }))
    × ((retry_payment database repository env "paystack" "t1" unlocked (state failed)).0.queue
        ≡ [] ++ record { transaction_id = "t1"; event = unlocked } ∷ [])
retry_payment_reopens_example =
    retry_payment_reopens database repository env "paystack" "t1" unlocked (state failed) failed
      refl refl

abbrev new_bank : Option RetryBankDetailsOverride
new_bank = some (record { bank_account_number = some "9876543210"; bank_code = some "011" })

not_queued :
    (retry_failed_transaction database repository env "paystack" "t1" new_bank (state paid)).1
    ≢ queued
unfolding retry_failed_transaction
not_queued = λ h. cc

retry_eligible_failed_transactions_lem_example :
    (jobs : List CashbackJob) × ((retry_eligible_failed_transactions database repository env
        "paystack" false 5
        (state failed)).0.queue
      ≡ [] ++ jobs)
    × (map (λ (j : CashbackJob). j.transaction_id) jobs
        ≡ map
            (λ (r : CashbackTransaction). r.id)
            (filter
              (λ (r : CashbackTransaction).
                is_retried 5 1000 r (database.find_account r.user_id (state failed).tables))
              (database.transactions (state failed).tables)))
    × ((retry_eligible_failed_transactions database repository env "paystack" false 5
          (state failed)).1
        ≡ length jobs)
retry_eligible_failed_transactions_lem_example =
    retry_eligible_failed_transactions_lem database repository env "paystack" 5 (state failed)

one_retry :
    (retry_eligible_failed_transactions database repository env "paystack" false 5 (state failed)).1
    ≡ 1
unfolding retry_eligible_failed_transactions retry_payment
one_retry = refl
