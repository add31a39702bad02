-- ===== src/Cashback/Webhook/Terminal.antt =====
-- What the reports of a transfer do to its row.
use text.Mathlib.TextPositions.{eq_refl}
use bumpa_achievement_system.Common.{
  ℕ, ◌≡◌, refl, ◌∙◌, ap, sym, String, Bool, true, false, ◌||◌, Option, none, some, List, [], ◌∷◌,
  ◌==◌, Bool-cases, inl, inr, arith, some-eq,
}
use bumpa_achievement_system.Events.{Env}
use bumpa_achievement_system.Outbox.{Confirmation, OutboxRepository, OutboxOptions}
use bumpa_achievement_system.Cashback.Payments.{other_error, classify_cashback_failure}
use bumpa_achievement_system.Cashback.Store.{
  CashbackDatabase, CashbackTransaction, TransactionStatus, status_eq, stored, Column, undefined,
  null, value, write,
}
use bumpa_achievement_system.Cashback.Jobs.{CashbackState}
use bumpa_achievement_system.Cashback.Webhook.{
  WebhookData, WebhookBody, WebhookAnswer, handled, bytes_eq, required, verify_signature, confirmed,
  reported_failed, reason_of, report, success_found, failure_found, success_required,
  failure_required, mark_transfer_successful, mark_transfer_failed, handle_webhook,
}

-- A column that is read and saved again keeps what it has.
write_self {ℓ} : {A : Type ℓ} (c : Column A) → write c c ≡ c
write_self undefined = refl
write_self null = refl
write_self (value a) = refl

bytes_eq→eq : (xs ys : List ℕ) → bytes_eq xs ys ≡ true → xs ≡ ys
unfolding bytes_eq
bytes_eq→eq [] [] h = refl
bytes_eq→eq [] (y ∷ ys) h = cc
bytes_eq→eq (x ∷ xs) [] h = cc
bytes_eq→eq (x ∷ xs) (y ∷ ys) h = ground (arith, bytes_eq→eq xs ys)

module _ (hmac : (secret raw_body : String) → List ℕ) (from_hex : String → List ℕ) where
  -- A webhook passes only if the secret, the raw body and the signature are there and the signature
  -- decodes to the digest of the body under the secret.
  pub verify_signature_sound :
      (secret raw_body signature : Option String)
      → verify_signature hmac from_hex secret raw_body signature ≡ true
      → (k : String) × (b : String) × (x : String) × (secret ≡ some k)
        × (raw_body ≡ some b)
        × (signature ≡ some x)
        × (hmac k b ≡ from_hex x)
  unfolding verify_signature
  verify_signature_sound none b x h = cc
  verify_signature_sound (some k) none x h = cc
  verify_signature_sound (some k) (some b) none h = cc
  verify_signature_sound (some k) (some b) (some x) h = (
    k,
    b,
    x,
    refl,
    refl,
    refl,
    elim (Bool-cases (k == "" || x == "")) [
      | inl blank ↦ absurd (cc (simp blank at h))
      | inr given ↦ bytes_eq→eq (hmac k b) (from_hex x) (simp given at h)
    ],
  )

module _ (database : CashbackDatabase) (repository : OutboxRepository) (options : OutboxOptions)
    (confirm : ℕ → Confirmation) (clock : ℕ → ℕ) (env : Env) where
  open database use {find_transaction, find_by_reference}

  abbrev State : Type 0
  State = CashbackState database repository

  abbrev pub webhook : Bool → WebhookBody → State → State × WebhookAnswer
  webhook = handle_webhook database repository options confirm clock env

  abbrev pub succeed : WebhookData → State → State × WebhookAnswer
  succeed = mark_transfer_successful database repository options confirm clock env

  abbrev pub fail : WebhookData → State → State × WebhookAnswer
  fail = mark_transfer_failed database repository options confirm clock env

  -- A report of success, for a transfer whose row is there and not SUCCESSFUL yet, makes the row
  -- SUCCESSFUL without a trace of a failure, whatever its status was.
  pub mark_transfer_successful_confirms :
      (d : WebhookData) (x : String) (s : State) (r : CashbackTransaction)
      → required d.reference ≡ some x
      → find_by_reference x s.tables ≡ some r
      → status_eq r.status TransactionStatus.successful ≡ false
      → find_transaction r.id (succeed d s).0.tables ≡ some (stored (some r) (confirmed r))
  unfolding mark_transfer_successful success_required success_found report
  mark_transfer_successful_confirms d x s r named found open' = simp (
    named,
    found,
    open',
    database.find-save,
    eq_refl,
    (database.reference-found x s.tables r found).0,
  )

  succeed_terminal :
      (d : WebhookData) (x : String) (s : State) (r : CashbackTransaction)
      → required d.reference ≡ some x
      → find_by_reference x s.tables ≡ some r
      → status_eq r.status TransactionStatus.successful ≡ true
      → succeed d s ≡ (s, handled)
  unfolding mark_transfer_successful success_required success_found
  succeed_terminal d x s r named found paid = simp (named, found, paid)

  -- The same report once more changes nothing, and announces nothing, when the reference still leads to
  -- the same row.
  pub mark_transfer_successful_once :
      (d : WebhookData) (x : String) (s : State) (r q : CashbackTransaction)
      → required d.reference ≡ some x
      → find_by_reference x s.tables ≡ some r
      → find_by_reference x (succeed d s).0.tables ≡ some q
      → q.id ≡ r.id
      → (succeed d (succeed d s).0).0 ≡ (succeed d s).0
  mark_transfer_successful_once d x s r q named found again same =
      elim (Bool-cases (status_eq r.status TransactionStatus.successful)) [
        | inl paid ↦
            ap (λ t. (succeed d t).0) (ap (λ p. p.0) (succeed_terminal d x s r named found paid))
        | inr open' ↦
            let row : q ≡ stored (some r) (confirmed r) = some-eq (
              sym (database.reference-found x (succeed d s).0.tables q again).0
              ∙ ap (λ i. find_transaction i (succeed d s).0.tables) same
              ∙ mark_transfer_successful_confirms d x s r named found open') in
            ap (λ p. p.0) (succeed_terminal d x (succeed d s).0 q named again (simp row))
      ]

  -- A report of failure, for a transfer whose row is there and not FAILED yet (a SUCCESSFUL one
  -- included), makes the row FAILED with the message, the code and the flag of the failure that its
  -- reason is classified as. The retry count and the time of the next try stay what they were.
  pub mark_transfer_failed_records :
      (d : WebhookData) (x : String) (s : State) (r : CashbackTransaction)
      → required d.reference ≡ some x
      → find_by_reference x s.tables ≡ some r
      → status_eq r.status TransactionStatus.failed ≡ false
      → let failure =
          classify_cashback_failure (other_error (reason_of d.reason d.failure_reason)) in
        (q : CashbackTransaction) × (find_transaction r.id (fail d s).0.tables ≡ some q)
        × (q.status ≡ TransactionStatus.failed)
        × (q.failure_reason ≡ value failure.message)
        × (q.failure_code ≡ value failure.code)
        × (q.retryable ≡ value failure.retryable)
        × (q.retry_count ≡ r.retry_count)
        × (q.next_retry_at ≡ r.next_retry_at)
  unfolding mark_transfer_failed failure_required failure_found report
  mark_transfer_failed_records d x s r named found open' = (
    stored (some r) (
        reported_failed
          (classify_cashback_failure (other_error (reason_of d.reason d.failure_reason))) r),
    simp (
      named,
      found,
      open',
      database.find-save,
      eq_refl,
      (database.reference-found x s.tables r found).0,
    ),
    refl,
    refl,
    refl,
    refl,
    refl,
    write_self r.next_retry_at,
  )
