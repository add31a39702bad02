-- ===== src/Cashback/Webhook.antt =====
-- apps/cashback-service/src/payments/paystack-webhook.service.ts: what Paystack reports of a transfer
-- later on. The digest and the decoding of hexadecimal text are Node's, the arguments `hmac` and
-- `from_hex`. Statements on the database are taken to succeed.
pub mod Terminal
use bumpa_achievement_system.Common.{
  ℕ, ◌+◌, String, Bool, true, false, not, ◌&&◌, ◌||◌, Option, none, some, List, [], ◌∷◌,
  if◌then◌else◌, ◌==◌, nat_eq,
}
use bumpa_achievement_system.Events.{Env, Outcome, successful, failed, EntityIdPrefix}
use bumpa_achievement_system.Outbox.{Confirmation, OutboxRepository, OutboxOptions, publish_by_id}
use bumpa_achievement_system.Cashback.Payments.{
  CashbackPaymentError, other_error, classify_cashback_failure,
}
use bumpa_achievement_system.Cashback.Store.{
  CashbackDatabase, CashbackTransaction, Column, undefined, null, value, TransactionStatus,
  status_eq,
}
use bumpa_achievement_system.Cashback.Jobs.{CashbackState, processed_row}

-- The strings of `data` that the code reads; `none` where one is absent or not a string.
pub record WebhookData : Type 0 where
  pub reference : Option String
  pub reason : Option String
  pub failure_reason : Option String

-- The body: the string `event`, the object `data`.
pub record WebhookBody : Type 0 where
  pub event : Option String
  pub data' : Option WebhookData

-- The handler returns, refuses the signature, or throws for a part that is missing.
pub data WebhookAnswer : Type 0 where
  handled unauthorized malformed : WebhookAnswer

bytes_eq : List ℕ → List ℕ → Bool
bytes_eq [] [] = true
bytes_eq [] (b ∷ bs) = false
bytes_eq (a ∷ rest) [] = false
bytes_eq (a ∷ rest) (b ∷ bs) = nat_eq a b && bytes_eq rest bs

-- readRequiredString: the empty text counts as missing.
abbrev pub required : Option String → Option String
required none = none
required (some s) = if s == "" then none else some s

module _ (hmac : (secret raw_body : String) → List ℕ) (from_hex : String → List ℕ) where
  -- verifySignature
  unfoldable pub verify_signature : (secret raw_body signature : Option String) → Bool
  unfolding bytes_eq
  verify_signature none raw_body signature = false
  verify_signature (some secret) none signature = false
  verify_signature (some secret) (some raw_body) none = false
  verify_signature (some secret) (some raw_body) (some signature) =
      if secret == "" || signature == ""
      then false
      else bytes_eq (hmac secret raw_body) (from_hex signature)

-- What each report assigns to the row.
abbrev pub confirmed : CashbackTransaction → CashbackTransaction
confirmed transaction = record transaction {
  status = TransactionStatus.successful;
  failure_reason = null;
  failure_code = null;
  retryable = null;
}

abbrev pub reported_failed : CashbackPaymentError → CashbackTransaction → CashbackTransaction
reported_failed failure transaction = record transaction {
  status = TransactionStatus.failed;
  failure_reason = value failure.message;
  failure_code = value failure.code;
  retryable = value failure.retryable;
}

-- readString(data, 'reason') ?? readString(data, 'failure_reason') ?? 'Paystack transfer failed'
abbrev pub reason_of : Option String → Option String → String
reason_of (some reason) failure_reason = reason
reason_of none (some failure_reason) = failure_reason
reason_of none none = "Paystack transfer failed"

module _ (database : CashbackDatabase) (repository : OutboxRepository) (options : OutboxOptions)
    (confirm : ℕ → Confirmation) (clock : ℕ → ℕ) (env : Env) where
  open database use {find_by_reference, save_transaction}

  abbrev State : Type 0
  State = CashbackState database repository

  correlation_or : Column String → ℕ → String
  correlation_or undefined n = env.create_readable_id EntityIdPrefix.event (n + 1)
  correlation_or null n = env.create_readable_id EntityIdPrefix.event (n + 1)
  correlation_or (value c) n = c

  -- The transaction of both handlers, and the publication of the row that it saves.
  pub report : CashbackTransaction → Outcome → State → State
  unfolding correlation_or
  report transaction status s =
      let row =
        processed_row env transaction (correlation_or transaction.correlation_id s.drawn) status
          s.drawn in
      record s {
        tables = save_transaction transaction s.tables;
        outbox =
            (publish_by_id repository options confirm clock row.id
              (record s.outbox { rows = repository.save row s.outbox.rows })).0;
        drawn = s.drawn + 2;
      }

  success_found : Option CashbackTransaction → State → State
  unfolding report
  success_found none s = s
  success_found (some transaction) s =
      if status_eq transaction.status TransactionStatus.successful
      then s
      else report (confirmed transaction) successful s

  failure_found : Option CashbackTransaction → String → State → State
  unfolding report
  failure_found none reason s = s
  failure_found (some transaction) reason s =
      if status_eq transaction.status TransactionStatus.failed
      then s
      else report (reported_failed (classify_cashback_failure (other_error reason)) transaction)
          failed s

  success_required : Option String → State → State × WebhookAnswer
  unfolding success_found
  success_required none s = (s, malformed)
  success_required (some reference) s =
      (success_found (find_by_reference reference s.tables) s, handled)

  failure_required : Option String → String → State → State × WebhookAnswer
  unfolding failure_found
  failure_required none reason s = (s, malformed)
  failure_required (some reference) reason s =
      (failure_found (find_by_reference reference s.tables) reason s, handled)

  unfoldable pub mark_transfer_successful : WebhookData → State → State × WebhookAnswer
  unfolding success_required
  mark_transfer_successful d s = success_required (required d.reference) s

  unfoldable pub mark_transfer_failed : WebhookData → State → State × WebhookAnswer
  unfolding failure_required
  mark_transfer_failed d s =
      failure_required (required d.reference) (reason_of d.reason d.failure_reason) s

  -- parseEvent, and the choice by the event's name.
  dispatch : Option String → Option WebhookData → State → State × WebhookAnswer
  unfolding mark_transfer_successful mark_transfer_failed
  dispatch none d s = (s, malformed)
  dispatch (some event) none s = (s, malformed)
  dispatch (some event) (some d) s =
      if event == "transfer.success"
      then mark_transfer_successful d s
      else if event == "transfer.failed" || event == "transfer.reversed"
      then mark_transfer_failed d s
      else (s, handled)

  -- handleWebhook; `verified` is what verifySignature finds.
  unfoldable pub handle_webhook : (verified : Bool) → WebhookBody → State → State × WebhookAnswer
  unfolding dispatch
  handle_webhook verified body s =
      if not verified then (s, unauthorized) else dispatch (required body.event) body.data' s
