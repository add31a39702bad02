-- ===== src/Cashback/Pay/Outcomes.antt =====
-- apps/cashback-service/src/cashback/cashback.service.ts: what the steps of `processPayment` assign, how
-- a job ends, and the delay of `autoRetryDelayMs`.
use bumpa_achievement_system.Common.{
  ℕ, ◌+◌, ◌-◌, ◌*◌, ◌^◌, String, Bool, true, Option, none, some, if◌then◌else◌, ◌==◌, min, max,
}
use bumpa_achievement_system.Cashback.Payments.{
  CashbackPaymentError, CashbackPaymentResult, AcceptedStatus, accepted_pending,
  accepted_successful,
}
use bumpa_achievement_system.Cashback.Store.{
  CashbackTransaction, undefined, null, value, to_column, TransactionStatus,
}

-- autoRetryDelayMs, from the configured base delay.
unfoldable pub auto_retry_delay_ms : ℕ → ℕ → ℕ
auto_retry_delay_ms base_delay_ms retry_count =
    min (base_delay_ms * 2 ^ max 0 (retry_count - 1)) 3600000

-- How a job ends: it returns, it throws the failure for the queue to try again, or it throws because
-- the row is not there.
pub data JobResult : Type 0 where
  returned : JobResult
  threw : CashbackPaymentError → JobResult
  not_found : JobResult

abbrev pub is_missing : Option String → Bool
is_missing none = true
is_missing (some s) = s == ""

abbrev pub status_of : AcceptedStatus → TransactionStatus
status_of accepted_pending = TransactionStatus.pending
status_of accepted_successful = TransactionStatus.successful

-- What the first transaction assigns.
abbrev pub accepted : CashbackPaymentResult → CashbackTransaction → CashbackTransaction
accepted result transaction = record transaction {
  status = status_of result.status;
  provider = result.provider;
  provider_reference = value result.reference;
  provider_recipient_code = to_column result.provider_recipient_code;
  failure_reason = null;
  failure_code = null;
  retryable = null;
  next_retry_at = null;
}

-- What the handler of an error assigns; `delay` is the time of the next try.
abbrev pub refused : CashbackPaymentError → (ℕ → ℕ) → CashbackTransaction → CashbackTransaction
refused failure delay transaction = record transaction {
  status = TransactionStatus.failed;
  failure_reason = value failure.message;
  failure_code = value failure.code;
  retryable = value failure.retryable;
  retry_count = transaction.retry_count + 1;
  next_retry_at =
      if failure.retryable then value (delay (transaction.retry_count + 1)) else undefined;
}

-- The statement that claims the row.
abbrev pub claiming : String → CashbackTransaction → CashbackTransaction
claiming reference transaction = record transaction {
  status = TransactionStatus.processing;
  provider_reference = value reference;
}

abbrev pub requeued : CashbackTransaction → CashbackTransaction
requeued transaction = record transaction { status = TransactionStatus.pending }
