-- ===== src/Cashback/Pay/Settled.antt =====
-- How each attempt leaves the row.
use text.Mathlib.TextPositions.{eq_refl}
use bumpa_achievement_system.Common.{
  ℕ, ◌+◌, ◌≡◌, refl, ◌∙◌, ap, String, Bool, true, false, not, ◌&&◌, Option, none, some, ◌==◌,
  Bool-cases, inl, inr, if◌then◌else◌,
}
use bumpa_achievement_system.Events.{Env, BadgeUnlockedEvent}
use bumpa_achievement_system.Outbox.{Confirmation, OutboxRepository, OutboxOptions}
use bumpa_achievement_system.Cashback.Payments.{
  PaymentError, CashbackPaymentError, CashbackPaymentResult, AcceptedStatus, accepted_pending,
  accepted_successful, PaymentProvider, SendResult, sent, rejected, classify_cashback_failure,
}
use bumpa_achievement_system.Cashback.Store.{
  CashbackDatabase, CashbackTransaction, PayoutAccount, TransactionStatus, stored, Column, null,
  value,
}
use bumpa_achievement_system.Cashback.Jobs.{CashbackState}
use bumpa_achievement_system.Cashback.Pay.{
  JobResult, returned, threw, auto_retry_delay_ms, accepted, refused, requeued, fail_payment,
  announce, announce_row, announce_success, save_recipient, accept_payment, finish_payment,
}

-- What a row says of a failure: `due` is the time of the next try, `kept` the time the row had.
pub record RecordsFailure (failure : CashbackPaymentError) (due : ℕ) (kept : Column ℕ)
    (r q : CashbackTransaction) : Type 0 where
  pub is_failed : q.status ≡ TransactionStatus.failed
  pub reason : q.failure_reason ≡ value failure.message
  pub code : q.failure_code ≡ value failure.code
  pub flag : q.retryable ≡ value failure.retryable
  pub counted : q.retry_count ≡ r.retry_count + 1
  pub due_again : q.next_retry_at ≡ (if failure.retryable then value due else kept)
  pub owner : q.user_id ≡ r.user_id
  pub amount : q.amount_kobo ≡ r.amount_kobo

abbrev pub time_in : Option CashbackTransaction → Column ℕ
time_in none = null
time_in (some old) = old.next_retry_at

stored-RecordsFailure :
    (failure : CashbackPaymentError) (delay : ℕ → ℕ) (old : Option CashbackTransaction)
    (r : CashbackTransaction)
    → RecordsFailure failure
        (delay (r.retry_count + 1))
        (time_in old)
        r
        (stored old (refused failure delay r))
stored-RecordsFailure failure delay none r = record {
  is_failed = refl;
  reason = refl;
  code = refl;
  flag = refl;
  counted = refl;
  due_again = elim (Bool-cases failure.retryable) [ inl y ↦ simp y | inr n ↦ simp n ];
  owner = refl;
  amount = refl;
}
stored-RecordsFailure failure delay (some old) r = record {
  is_failed = refl;
  reason = refl;
  code = refl;
  flag = refl;
  counted = refl;
  due_again = elim (Bool-cases failure.retryable) [ inl y ↦ simp y | inr n ↦ simp n ];
  owner = refl;
  amount = refl;
}

module _ (database : CashbackDatabase) (repository : OutboxRepository) (options : OutboxOptions)
    (confirm : ℕ → Confirmation) (clock : ℕ → ℕ) (env : Env) (provider : PaymentProvider)
    (base_delay_ms : ℕ) where
  open database use {find_transaction}

  abbrev State : Type 0
  State = CashbackState database repository

  abbrev pub finish :
      Option String
      → Bool
      → BadgeUnlockedEvent
      → CashbackTransaction
      → PayoutAccount
      → SendResult
      → State
      → State × JobResult
  finish = finish_payment database repository options confirm clock env provider base_delay_ms

  -- The time of the next try, as the state's clock gives it.
  abbrev pub next_try : State → ℕ → ℕ
  next_try s n = env.now s.drawn + auto_retry_delay_ms base_delay_ms n

  save_recipient-find :
      (j : String) (o : Option String) (a : PayoutAccount) (t : database.Tables)
      → find_transaction j (
          save_recipient database repository options confirm clock env provider base_delay_ms o a t)
        ≡ find_transaction j t
  unfolding save_recipient
  save_recipient-find j none a t = refl
  save_recipient-find j (some c) a t = elim (Bool-cases (c == "")) [
    | inl blank ↦ simp blank
    | inr given ↦ simp (given, database.find-save_account)
  ]

  announce_success-tables :
      (o : AcceptedStatus) (r : CashbackTransaction) (c : String) (s : State)
      → (announce_success database repository options confirm clock env provider base_delay_ms o r c
          s).tables
        ≡ s.tables
  unfolding announce_success announce announce_row
  announce_success-tables accepted_pending r c s = refl
  announce_success-tables accepted_successful r c s = refl

  -- A failure that is not handed back to the queue (it is not retryable, or this was the job's last
  -- attempt) is recorded: the row is FAILED with the failure's message, code and flag and one more in
  -- its retry count; it is due again after the delay if the failure is retryable, and else keeps the
  -- time that it had. The user and the amount stay, and the job returns.
  pub finish_payment_records :
      (rollback : Option String) (is_final : Bool) (e : BadgeUnlockedEvent)
      (r : CashbackTransaction) (a : PayoutAccount) (error : PaymentError) (s : State)
      → ((classify_cashback_failure error).retryable && not is_final) ≡ false
      → (q : CashbackTransaction) × (find_transaction r.id
            (finish rollback is_final e r a (rejected error) s).0.tables
          ≡ some q)
        × RecordsFailure
            (classify_cashback_failure error)
            (next_try s (r.retry_count + 1))
            (time_in (find_transaction r.id s.tables))
            r
            q
        × ((finish rollback is_final e r a (rejected error) s).1 ≡ returned)
  unfolding finish_payment fail_payment announce announce_row
  finish_payment_records rollback is_final e r a error s last = (
    stored (find_transaction r.id s.tables)
        (refused (classify_cashback_failure error) (next_try s) r),
    simp (last, database.find-save, eq_refl),
    stored-RecordsFailure (classify_cashback_failure error) (next_try s)
        (find_transaction r.id s.tables) r,
    simp last,
  )

  -- A retryable failure before the job's last attempt puts the claimed row back to PENDING, announces
  -- nothing, and throws the failure so that the queue tries again.
  pub finish_payment_requeues :
      (rollback : Option String) (e : BadgeUnlockedEvent) (r old : CashbackTransaction)
      (a : PayoutAccount) (error : PaymentError) (s : State)
      → (classify_cashback_failure error).retryable ≡ true
      → find_transaction r.id s.tables ≡ some old
      → old.status ≡ TransactionStatus.processing
      → (find_transaction r.id (finish rollback false e r a (rejected error) s).0.tables
          ≡ some (requeued old))
        × ((finish rollback false e r a (rejected error) s).0.outbox ≡ s.outbox)
        × ((finish rollback false e r a (rejected error) s).1
            ≡ threw (classify_cashback_failure error))
  unfolding finish_payment fail_payment
  finish_payment_requeues rollback e r old a error s retryable found claimed = (
    simp (retryable, database.find-update _ _ _ requeued _ (λ r. refl), eq_refl, found, claimed),
    simp retryable,
    simp retryable,
  )

  -- An accepted payment is recorded over whatever the row has become since the claim: the status of
  -- the answer, its reference and recipient, and no trace of a failure.
  finish_payment_accepts :
      (is_final : Bool) (e : BadgeUnlockedEvent) (r : CashbackTransaction) (a : PayoutAccount)
      (result : CashbackPaymentResult) (s : State)
      → (find_transaction r.id (finish none is_final e r a (sent result) s).0.tables
          ≡ some (stored (find_transaction r.id s.tables) (accepted result r)))
        × ((finish none is_final e r a (sent result) s).1 ≡ returned)
  unfolding finish_payment accept_payment
  finish_payment_accepts is_final e r a result s =
      (simp (announce_success-tables, save_recipient-find, database.find-save, eq_refl), refl)

  -- A report of success that comes between the claim and the provider's answer is lost when the answer
  -- says that the transfer is pending: the row goes from SUCCESSFUL back to PENDING, where a further
  -- job may pay it again.
  pub finish_payment_overwrites :
      (is_final : Bool) (e : BadgeUnlockedEvent) (r paid : CashbackTransaction) (a : PayoutAccount)
      (result : CashbackPaymentResult) (s : State)
      → find_transaction r.id s.tables ≡ some paid
      → paid.status ≡ TransactionStatus.successful
      → result.status ≡ accepted_pending
      → (q : CashbackTransaction) × (find_transaction r.id
            (finish none is_final e r a (sent result) s).0.tables
          ≡ some q)
        × (q.status ≡ TransactionStatus.pending)
  finish_payment_overwrites is_final e r paid a result s found was answer = (
    stored (some paid) (accepted result r),
    (finish_payment_accepts is_final e r a result s).0
        ∙ ap (λ o. some (stored o (accepted result r))) found,
    simp answer,
  )
