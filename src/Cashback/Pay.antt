-- ===== src/Cashback/Pay.antt =====
-- apps/cashback-service/src/cashback/cashback.service.ts: `processPayment`, the worker of the queue,
-- and what it calls. A webhook may arrive while the provider is asked, so the function is cut there:
-- `begin_payment` claims the row, `finish_payment` takes the provider's answer. The statements outside
-- the first transaction are taken to succeed; that transaction commits, or throws a message.
mod Outcomes
unfoldable pub use Outcomes.*
pub mod Backoff
pub mod Claim
pub mod Settled
use bumpa_achievement_system.Common.{
  ℕ, ◌+◌, ◌*◌, String, Bool, not, ◌&&◌, ◌||◌, Option, none, some, ◌∷◌, if◌then◌else◌, ◌==◌,
  concat_text,
}
use bumpa_achievement_system.Events.{
  Env, BadgeUnlockedEvent, OutboxEvent, Outcome, successful, failed, EntityIdPrefix,
}
use bumpa_achievement_system.Outbox.{Confirmation, OutboxRepository, OutboxOptions, publish_by_id}
use bumpa_achievement_system.Cashback.Payments.{
  CashbackPaymentError, other_error, missing_bank_details_error, default_missing_message,
  CashbackPaymentRequest, CashbackPaymentResult, AcceptedStatus, accepted_pending,
  accepted_successful, SendResult, sent, rejected, PaymentProvider, classify_cashback_failure,
}
use bumpa_achievement_system.Cashback.Store.{
  CashbackDatabase, CashbackTransaction, PayoutAccount, Column, undefined, null, value, of_column,
  TransactionStatus, status_eq,
}
use bumpa_achievement_system.Cashback.Jobs.{CashbackState, processed_row}

module _ (database : CashbackDatabase) (repository : OutboxRepository) (options : OutboxOptions)
    (confirm : ℕ → Confirmation) (clock : ℕ → ℕ) (env : Env) (provider : PaymentProvider)
    (base_delay_ms : ℕ) where
  open database use {
    find_transaction, find_account, save_transaction, save_account, update_in, affected,
  }

  abbrev State : Type 0
  State = CashbackState database repository

  -- What a claim leaves: the state, and the claimed transaction unless the job is skipped.
  pub record Claimed : Type 0 where
    pub state : State
    pub transaction : Option CashbackTransaction

  -- The conditional update, and whether it has found the row.
  pub claim_payment : CashbackTransaction → State → Claimed
  claim_payment transaction s =
      let reference =
        concat_text provider.name
          (concat_text "_" (env.create_readable_id EntityIdPrefix.cashback s.drawn)) in
      record {
        state = record s {
          tables = update_in transaction.id TransactionStatus.pending (claiming reference) s.tables;
          drawn = s.drawn + 1;
        };
        transaction =
            if affected transaction.id TransactionStatus.pending s.tables
            then some (claiming reference transaction)
            else none;
      }

  -- processPayment up to the claim, from the row that was read; `none` when it is not there.
  pub begin_payment : Option CashbackTransaction → State → Option Claimed
  unfolding claim_payment
  begin_payment none s = none
  begin_payment (some transaction) s =
      if not (status_eq transaction.status TransactionStatus.pending)
      then some (record { state = s; transaction = none })
      else some (claim_payment transaction s)

  account_for : BadgeUnlockedEvent → String → String → Option PayoutAccount → ℕ → PayoutAccount
  account_for e number code none n = record {
    id = env.create_readable_id EntityIdPrefix.payout_account n;
    user_id = e.payload.user.id;
    user_name = e.payload.user.name;
    bank_account_number = number;
    bank_code = code;
    provider = provider.name;
    provider_recipient_code = undefined;
  }
  account_for e number code (some existing) n = record existing {
    user_name = e.payload.user.name;
    bank_account_number = number;
    bank_code = code;
    provider = provider.name;
  }

  upsert_given :
      BadgeUnlockedEvent → Option String → Option String → State → Option (PayoutAccount × State)
  unfolding account_for
  upsert_given e none code s = none
  upsert_given e (some number) none s = none
  upsert_given e (some number) (some code) s =
      let account = account_for e number code (find_account e.payload.user.id s.tables) s.drawn in
      some (account, record s { tables = save_account account s.tables; drawn = s.drawn + 1 })

  -- upsertPayoutAccount; `none` when it throws the MissingBankDetailsError.
  pub upsert_payout_account : BadgeUnlockedEvent → State → Option (PayoutAccount × State)
  unfolding upsert_given
  upsert_payout_account e s =
      if is_missing e.payload.user.bank_account_number || is_missing e.payload.user.bank_code
      then none
      else upsert_given e e.payload.user.bank_account_number e.payload.user.bank_code s

  -- saveCashbackProcessedEvent and the publication of its row.
  announce_row : OutboxEvent → State → State
  announce_row row s = record s {
    outbox =
        (publish_by_id repository options confirm clock row.id
          (record s.outbox { rows = repository.save row s.outbox.rows })).0;
    drawn = s.drawn + 1;
  }

  pub announce : CashbackTransaction → String → Outcome → State → State
  unfolding announce_row
  announce transaction correlation_id status s =
      announce_row (processed_row env transaction correlation_id status s.drawn) s

  -- The handler of the errors.
  pub fail_payment :
      Bool
      → BadgeUnlockedEvent
      → CashbackTransaction
      → CashbackPaymentError
      → State
      → State × JobResult
  unfolding announce
  fail_payment is_final_attempt e transaction failure s =
      if failure.retryable && not is_final_attempt
      then (
        record s {
          tables = update_in transaction.id TransactionStatus.processing requeued s.tables;
        },
        threw failure,
      )
      else let failing =
          refused failure (λ n. env.now s.drawn + auto_retry_delay_ms base_delay_ms n)
            transaction in
        (
          announce failing e.correlation_id failed
              (record s { tables = save_transaction failing s.tables }),
          returned,
        )

  -- `if (result.providerRecipientCode)`: the empty text is false.
  pub save_recipient : Option String → PayoutAccount → database.Tables → database.Tables
  save_recipient none account t = t
  save_recipient (some code) account t =
      if code == ""
      then t
      else save_account (record account { provider_recipient_code = value code }) t

  announce_success : AcceptedStatus → CashbackTransaction → String → State → State
  unfolding announce
  announce_success accepted_pending transaction correlation_id s = s
  announce_success accepted_successful transaction correlation_id s =
      announce transaction correlation_id successful s

  -- The rest of the `try`, once the provider has accepted.
  pub accept_payment :
      Option String
      → Bool
      → BadgeUnlockedEvent
      → CashbackTransaction
      → PayoutAccount
      → CashbackPaymentResult
      → State
      → State × JobResult
  unfolding save_recipient announce_success fail_payment
  accept_payment none is_final_attempt e transaction account result s =
      let accepting = accepted result transaction in
      (
        announce_success result.status accepting e.correlation_id (record s {
          tables =
              save_recipient result.provider_recipient_code account
                (save_transaction accepting s.tables);
        }),
        returned,
      )
  accept_payment (some message) is_final_attempt e transaction account result s =
      fail_payment is_final_attempt e (accepted result transaction)
        (classify_cashback_failure (other_error message)) s

  -- processPayment from the provider's answer on.
  pub finish_payment :
      Option String
      → Bool
      → BadgeUnlockedEvent
      → CashbackTransaction
      → PayoutAccount
      → SendResult
      → State
      → State × JobResult
  unfolding accept_payment
  finish_payment rollback is_final_attempt e transaction account (sent result) s =
      accept_payment rollback is_final_attempt e transaction account result s
  finish_payment rollback is_final_attempt e transaction account (rejected error) s =
      fail_payment is_final_attempt e transaction (classify_cashback_failure error) s

  pub request_for :
      BadgeUnlockedEvent → CashbackTransaction → PayoutAccount → CashbackPaymentRequest
  request_for e transaction account = record {
    user_id = e.payload.user.id;
    user_name = e.payload.user.name;
    badge_name = e.payload.badge_name;
    amount_kobo = transaction.amount_kobo;
    bank_account_number = some account.bank_account_number;
    bank_code = some account.bank_code;
    provider_recipient_code = of_column account.provider_recipient_code;
    reference = reference_of transaction.provider_reference;
  }
    where
      reference_of : Column String → String
      reference_of undefined = ""
      reference_of null = ""
      reference_of (value r) = r

  -- The provider is asked; it makes at most two calls of its API.
  pub send : CashbackPaymentRequest → State → State × SendResult
  send request s = (
    record s { requests = request ∷ s.requests; calls = s.calls + 2 },
    provider.send_cashback s.calls request,
  )

  -- The `try` and its `catch`.
  pub attempt_with :
      Option String
      → Bool
      → BadgeUnlockedEvent
      → CashbackTransaction
      → Option (PayoutAccount × State)
      → State
      → State × JobResult
  unfolding request_for send finish_payment
  attempt_with rollback is_final_attempt e transaction none s =
      fail_payment is_final_attempt e transaction
        (classify_cashback_failure (missing_bank_details_error default_missing_message)) s
  attempt_with rollback is_final_attempt e transaction (some (account, s')) s =
      let (s2, answer) = send (request_for e transaction account) s' in
      finish_payment rollback is_final_attempt e transaction account answer s2

  continue_payment :
      Option String → Bool → BadgeUnlockedEvent → Option Claimed → State → State × JobResult
  unfolding attempt_with upsert_payout_account
  continue_payment rollback is_final_attempt e none s = (s, not_found)
  continue_payment rollback is_final_attempt e (some claimed) s = elim claimed.transaction [
    | none ↦ (claimed.state, returned)
    | some transaction ↦
        attempt_with rollback is_final_attempt e transaction (upsert_payout_account e claimed.state)
          claimed.state
  ]

  -- processPayment, with nothing in between.
  unfoldable pub process_payment :
      Option String → Bool → String → BadgeUnlockedEvent → State → State × JobResult
  unfolding begin_payment continue_payment
  process_payment rollback is_final_attempt transaction_id e s =
      continue_payment rollback is_final_attempt e
        (begin_payment (find_transaction transaction_id s.tables) s) s
