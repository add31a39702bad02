-- ===== src/Cashback/Payments/Table.antt =====
-- Which failures are retried: the table of apps/cashback-service/README.md.
use bumpa_achievement_system.Common.{ℕ, ◌≡◌, String, Bool, true, false, List, arith}
use bumpa_achievement_system.Events.{
  CashbackFailureCode, missing_bank_details, invalid_account, insufficient_balance,
  duplicate_reference, provider_unavailable, provider_rejected, provider_misconfigured,
}
use bumpa_achievement_system.Cashback.Payments.Text.{lower_codes}
use bumpa_achievement_system.Cashback.Payments.{
  CashbackPaymentError, other_error, classify_message, classify_cashback_failure,
}

abbrev pub is_retryable_code : CashbackFailureCode → Bool
is_retryable_code insufficient_balance = true
is_retryable_code provider_unavailable = true
is_retryable_code duplicate_reference = true
is_retryable_code invalid_account = false
is_retryable_code missing_bank_details = false
is_retryable_code provider_misconfigured = false
is_retryable_code provider_rejected = false

-- The flag is the one that the table gives the code.
abbrev pub FitsTable : CashbackPaymentError → Type 0
FitsTable e = e.retryable ≡ is_retryable_code e.code

classify_message-FitsTable : (m : String) (lower : List ℕ) → FitsTable (classify_message m lower)
unfolding classify_message
classify_message-FitsTable m lower = ground arith

classify_message-message : (m : String) (lower : List ℕ) → (classify_message m lower).message ≡ m
unfolding classify_message
classify_message-message m lower = ground arith

-- A failure that is classified by its message gets the flag that the table gives its code, and keeps
-- its message.
pub classify_cashback_failure-FitsTable :
    (m : String)
    → FitsTable (classify_cashback_failure (other_error m))
      × ((classify_cashback_failure (other_error m)).message ≡ m)
unfolding classify_cashback_failure
classify_cashback_failure-FitsTable m =
    (classify_message-FitsTable m (lower_codes m), classify_message-message m (lower_codes m))
