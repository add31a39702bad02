-- ===== src/Cashback/Payments.antt =====
-- apps/cashback-service/src/payments/payment-provider.ts: failures, their classification, and what a
-- provider is asked and answers.
pub mod Text
pub mod Table
pub mod Provider
use bumpa_achievement_system.Common.{
  ℕ, String, Bool, true, false, ◌||◌, Option, List, [], ◌∷◌, if◌then◌else◌,
}
use bumpa_achievement_system.Events.{
  CashbackFailureCode, missing_bank_details, invalid_account, insufficient_balance,
  duplicate_reference, provider_unavailable, provider_rejected,
}
use Text.{lower_codes, contains_any, contains_both, contains_5xx}

-- CashbackPaymentError
pub record CashbackPaymentError : Type 0 where
  pub message : String
  pub code : CashbackFailureCode
  pub retryable : Bool

-- What a `catch` may be handed: an error of that class, or any other with its message.
pub data PaymentError : Type 0 where
  payment_error : CashbackPaymentError → PaymentError
  other_error : String → PaymentError

-- MissingBankDetailsError
abbrev pub missing_bank_details_error : String → PaymentError
missing_bank_details_error message =
    payment_error (record { message = message; code = missing_bank_details; retryable = false })

abbrev pub default_missing_message : String
default_missing_message = "User payout account is required before cashback can be processed"

pub record CashbackPaymentRequest : Type 0 where
  pub user_id : String
  pub user_name : String
  pub badge_name : String
  pub amount_kobo : ℕ
  pub bank_account_number : Option String
  pub bank_code : Option String
  pub provider_recipient_code : Option String
  pub reference : String

-- The status of an accepted payment: PENDING or SUCCESSFUL.
pub data AcceptedStatus : Type 0 where
  accepted_pending accepted_successful : AcceptedStatus

pub record CashbackPaymentResult : Type 0 where
  pub provider : String
  pub reference : String
  pub status : AcceptedStatus
  pub provider_recipient_code : Option String

-- `sendCashback` resolves or rejects.
pub data SendResult : Type 0 where
  sent : CashbackPaymentResult → SendResult
  rejected : PaymentError → SendResult

-- The interface PaymentProvider; the answer may differ from call to call, so it takes the number of
-- the call.
pub record PaymentProvider : Type 0 where
  pub name : String
  pub send_cashback : ℕ → CashbackPaymentRequest → SendResult

-- The tests of the message in their order, on the message in lower case.
classify_message : String → List ℕ → CashbackPaymentError
unfolding contains_any contains_both contains_5xx
classify_message message lower =
    if contains_any
      ("insufficient balance" ∷ "insufficient funds" ∷ "balance is not enough"
        ∷ "not enough balance" ∷ "not enough funds" ∷ [])
      lower
    then record { message = message; code = insufficient_balance; retryable = true }
    else if contains_any
        ("cannot resolve account" ∷ "invalid account" ∷ "invalid bank" ∷ "could not resolve" ∷ [])
        lower
    then record { message = message; code = invalid_account; retryable = false }
    else if contains_both "duplicate" "reference" lower
    then record { message = message; code = duplicate_reference; retryable = true }
    else if contains_any
          ("timed out" ∷ "timeout" ∷ "econnrefused" ∷ "enotfound" ∷ "fetch failed" ∷ "network"
            ∷ "too many requests" ∷ "rate limit" ∷ [])
          lower
        || contains_5xx lower
    then record { message = message; code = provider_unavailable; retryable = true }
    else record { message = message; code = provider_rejected; retryable = false }

unfoldable pub classify_cashback_failure : PaymentError → CashbackPaymentError
unfolding classify_message lower_codes
classify_cashback_failure (payment_error e) = e
classify_cashback_failure (other_error message) = classify_message message (lower_codes message)
