-- ===== src/Cashback/Tests/Payment.antt =====
-- Payments on concrete data, and the failures of the provider.
use bumpa_achievement_system.Common.{
  ℕ, ◌≡◌, ◌≤◌, refl, true, false, none, some, ◌&&◌, not, min, arith,
}
use bumpa_achievement_system.Outbox.Tests.{options, down, clock}
use bumpa_achievement_system.Outbox.Tests.Rows.{repository}
use bumpa_achievement_system.Cashback.Payments.{
  PaymentError, other_error, missing_bank_details_error, classify_cashback_failure,
  CashbackPaymentRequest, CashbackPaymentResult, accepted_pending, sent, rejected,
}
use bumpa_achievement_system.Cashback.Payments.Table.{FitsTable}
use bumpa_achievement_system.Cashback.Payments.Provider.{
  FetchResult, unreachable, PaystackCall, mock_provider, paystack_send_cashback,
}
use bumpa_achievement_system.Cashback.Payments.Provider.Laws.{paystack_send_cashback_tabled}
use bumpa_achievement_system.Cashback.Store.{CashbackTransaction, TransactionStatus}
use bumpa_achievement_system.Cashback.Jobs.{handle_badge_unlocked}
use bumpa_achievement_system.Cashback.Jobs.Once.{handle_badge_unlocked_once}
use bumpa_achievement_system.Cashback.Pay.{returned, auto_retry_delay_ms}
use bumpa_achievement_system.Cashback.Pay.Backoff.{auto_retry_delay_ms_bounds}
use bumpa_achievement_system.Cashback.Pay.Claim.{claim, claim_payment_exclusive}
use bumpa_achievement_system.Cashback.Pay.Settled.{
  finish, next_try, finish_payment_records, RecordsFailure, time_in, finish_payment_overwrites,
}
use bumpa_achievement_system.Cashback.Tests.{
  env, unlocked, waiting, processing, paid, account, state,
}
use bumpa_achievement_system.Cashback.Tests.Tables.{database}

-- Paystack cannot be reached.
abbrev fetch : ℕ → PaystackCall → FetchResult
fetch n call = unreachable "fetch failed"

abbrev request : CashbackPaymentRequest
request = record {
  user_id = "u1";
  user_name = "Ada";
  badge_name = "Gold";
  amount_kobo = 30000;
  bank_account_number = none;
  bank_code = none;
  provider_recipient_code = some "RCP_1";
  reference = "paystack_t1";
}

refused_request :
    paystack_send_cashback fetch (some "sk") 0 request
    ≡ rejected (
        missing_bank_details_error
          "Bank account number and bank code are required for Paystack cashback")
unfolding paystack_send_cashback
refused_request = refl

paystack_send_cashback_tabled_example : FitsTable (
    classify_cashback_failure (
      missing_bank_details_error
        "Bank account number and bank code are required for Paystack cashback"))
paystack_send_cashback_tabled_example =
    paystack_send_cashback_tabled fetch (some "sk") 0 request
      (missing_bank_details_error
        "Bank account number and bank code are required for Paystack cashback")
      refused_request

abbrev old_bank : CashbackPaymentRequest
old_bank = record request { bank_account_number = some "0123456789"; bank_code = some "058" }

abbrev new_bank : CashbackPaymentRequest
new_bank = record request { bank_account_number = some "9876543210"; bank_code = some "011" }

handle_badge_unlocked_once_example :
    handle_badge_unlocked database repository options down clock env "paystack" 30000 false unlocked
      (handle_badge_unlocked database repository options down clock env "paystack" 30000 true
        unlocked
        (state paid)).0
    ≡ (
      (handle_badge_unlocked database repository options down clock env "paystack" 30000 true
          unlocked
          (state paid)).0,
      true,
    )
handle_badge_unlocked_once_example =
    handle_badge_unlocked_once database repository options down clock env "paystack" 30000 false
      unlocked unlocked (state paid) refl

auto_retry_delay_ms_bounds_example :
    (min 300000 3600000 ≤ auto_retry_delay_ms 300000 2)
    × (auto_retry_delay_ms 300000 5 ≤ 3600000)
    × (auto_retry_delay_ms 300000 2 ≤ auto_retry_delay_ms 300000 5)
auto_retry_delay_ms_bounds_example = auto_retry_delay_ms_bounds 300000 2 5 (omega arith)

claim_payment_exclusive_example :
    (claim database repository options down clock env mock_provider 300000 waiting
      (claim database repository options down clock env mock_provider 300000 waiting
        (state waiting)).state).transaction
    ≡ none
claim_payment_exclusive_example =
    claim_payment_exclusive database repository options down clock env mock_provider 300000 waiting
      waiting (state waiting)
      (claim database repository options down clock env mock_provider 300000 waiting
        (state waiting)).state
      refl refl

abbrev timeout : PaymentError
timeout = other_error "Request timed out"

timeout-retryable : (classify_cashback_failure timeout).retryable ≡ true
unfolding classify_cashback_failure
timeout-retryable = refl

last_attempt : ((classify_cashback_failure timeout).retryable && not true) ≡ false
unfolding classify_cashback_failure
last_attempt = refl

finish_payment_records_example :
    (q : CashbackTransaction) × (database.find_transaction "t1"
        (finish database repository options down clock env mock_provider 300000 none true unlocked
          processing account
          (rejected timeout)
          (state processing)).0.tables
      ≡ some q)
    × RecordsFailure
        (classify_cashback_failure timeout)
        (next_try database repository options down clock env mock_provider 300000
          (state processing)
          1)
        (time_in (some processing))
        processing
        q
    × ((finish database repository options down clock env mock_provider 300000 none true unlocked
          processing account
          (rejected timeout)
          (state processing)).1
        ≡ returned)
finish_payment_records_example =
    finish_payment_records database repository options down clock env mock_provider 300000 none true
      unlocked processing account timeout (state processing) last_attempt

abbrev result : CashbackPaymentResult
result = record {
  provider = "paystack";
  reference = "paystack_t1";
  status = accepted_pending;
  provider_recipient_code = some "RCP_1";
}

finish_payment_overwrites_example :
    (q : CashbackTransaction) × (database.find_transaction "t1"
        (finish database repository options down clock env mock_provider 300000 none true unlocked
          processing account
          (sent result)
          (state paid)).0.tables
      ≡ some q)
    × (q.status ≡ TransactionStatus.pending)
finish_payment_overwrites_example =
    finish_payment_overwrites database repository options down clock env mock_provider 300000 true
      unlocked processing paid account result (state paid) refl refl refl
