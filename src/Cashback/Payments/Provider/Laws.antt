-- ===== src/Cashback/Payments/Provider/Laws.antt =====
-- What the Paystack provider does with failures and with a recipient that is on file.
use bumpa_achievement_system.Common.{
  ℕ, ◌+◌, ◌≡◌, refl, sym, ◌∙◌, inl, inr, String, Bool, false, Option, none, some, arith, leb,
  nat_eq, ◌||◌, not, ◌==◌, Bool-cases,
}
use mathlib.Core.Path.{subst}
use bumpa_achievement_system.Events.{CashbackFailureCode}
use bumpa_achievement_system.Cashback.Payments.{
  CashbackPaymentError, PaymentError, payment_error, other_error, CashbackPaymentRequest,
  SendResult, sent, rejected, missing_bank_details_error, classify_cashback_failure,
}
use bumpa_achievement_system.Cashback.Payments.Table.{
  FitsTable, is_retryable_code, classify_cashback_failure-FitsTable,
}
use bumpa_achievement_system.Cashback.Payments.Provider.{
  FetchResult, unreachable, not_json, not_an_object, response, TransferData, PaystackCall, transfer,
  transferrecipient, or_default, Result, ok, err, paystack_error_code_map, mapped_code, from_code,
  api_error, read_response, require_data, require_recipient, recipient_of, is_blank, is_true,
  recipient_code, transferred, initiate, paystack_send_cashback,
}

-- A failure, as the worker classifies it, gets the flag of the table.
abbrev pub IsTabled : PaymentError → Type 0
IsTabled e = FitsTable (classify_cashback_failure e)

other-IsTabled : (m : String) → IsTabled (other_error m)
other-IsTabled m = (classify_cashback_failure-FitsTable m).0

payment-IsTabled : (e : CashbackPaymentError) → FitsTable e → IsTabled (payment_error e)
unfolding classify_cashback_failure
payment-IsTabled e h = h

map-FitsTable :
    (c : String) (code : CashbackFailureCode) (b : Bool)
    → paystack_error_code_map c ≡ some (code, b)
    → b ≡ is_retryable_code code
unfolding paystack_error_code_map
map-FitsTable c code b h = ground arith

mapped-FitsTable :
    (o : Option String) (code : CashbackFailureCode) (b : Bool)
    → mapped_code o ≡ some (code, b)
    → b ≡ is_retryable_code code
unfolding mapped_code
mapped-FitsTable none code b h = cc
mapped-FitsTable (some c) code b h = elim (Bool-cases (c == "")) [
  | inl blank ↦ absurd (cc (simp blank at h))
  | inr named ↦ map-FitsTable c code b (simp named at h)
]

from_code-IsTabled :
    (o : Option (CashbackFailureCode × Bool)) (m : String)
    → ((code : CashbackFailureCode) (b : Bool) → o ≡ some (code, b) → b ≡ is_retryable_code code)
    → IsTabled (from_code o m)
unfolding from_code
from_code-IsTabled none m h =
    payment-IsTabled (classify_cashback_failure (other_error m)) (other-IsTabled m)
from_code-IsTabled (some (code, b)) m h =
    payment-IsTabled (record { message = m; code = code; retryable = b }) (h code b refl)

api_error-IsTabled : (status : ℕ) (m : String) (o : Option String) → IsTabled (api_error status m o)
unfolding api_error
api_error-IsTabled status m o = elim (Bool-cases (nat_eq status 429 || leb 500 status)) [
  | inl down ↦ simp down (payment-IsTabled _ refl)
  | inr up ↦ simp up (from_code-IsTabled (mapped_code o) m (mapped-FitsTable o))
]

-- An error of a result is classified by the table.
abbrev AreTabled {ℓ} : {A : Type ℓ} → Result A → Type 0
AreTabled (ok a) = Unit
AreTabled (err e) = IsTabled e

require_data-AreTabled : (o : Option TransferData) → AreTabled (require_data o)
unfolding require_data
require_data-AreTabled none = other-IsTabled _
require_data-AreTabled (some d) = tt

read_response-AreTabled : (r : FetchResult) → AreTabled (read_response r)
unfolding read_response
read_response-AreTabled (unreachable m) = payment-IsTabled _ refl
read_response-AreTabled (not_json m) = other-IsTabled m
read_response-AreTabled not_an_object = other-IsTabled _
read_response-AreTabled (response o status body) =
    elim (Bool-cases (not o || not (is_true body.status))) [
      | inl bad ↦ simp bad (api_error-IsTabled status _ body.error_code)
      | inr good ↦ simp good (require_data-AreTabled body.data')
    ]

require_recipient-AreTabled : (o : Option String) → AreTabled (require_recipient o)
unfolding require_recipient
require_recipient-AreTabled none = other-IsTabled _
require_recipient-AreTabled (some c) = elim (Bool-cases (c == "")) [
  | inl blank ↦ simp blank (other-IsTabled _)
  | inr named ↦ simp named tt
]

recipient_of-AreTabled : (r : Result TransferData) → AreTabled r → AreTabled (recipient_of r)
unfolding recipient_of
recipient_of-AreTabled (err e) h = h
recipient_of-AreTabled (ok d) h = require_recipient-AreTabled d.recipient_code

abbrev RejectsTabled : SendResult → Type 0
RejectsTabled (sent r) = Unit
RejectsTabled (rejected e) = IsTabled e

module _ (fetch : ℕ → PaystackCall → FetchResult) where
  recipient_code-AreTabled :
      (n : ℕ) (q : CashbackPaymentRequest) (o : Option String)
      → AreTabled (recipient_code fetch n q o)
  unfolding recipient_code
  recipient_code-AreTabled n q (some c) = tt
  recipient_code-AreTabled n q none =
      let r = fetch n (
        transferrecipient q.user_name (or_default q.bank_account_number "")
          (or_default q.bank_code "")) in
      recipient_of-AreTabled (read_response r) (read_response-AreTabled r)

  transferred-RejectsTabled :
      (q : CashbackPaymentRequest) (c : String) (r : Result TransferData)
      → AreTabled r
      → RejectsTabled (transferred fetch q c r)
  unfolding transferred
  transferred-RejectsTabled q c (err e) h = h
  transferred-RejectsTabled q c (ok d) h = tt

  initiate-RejectsTabled :
      (n : ℕ) (q : CashbackPaymentRequest) (r : Result String)
      → AreTabled r
      → RejectsTabled (initiate fetch n q r)
  unfolding initiate
  initiate-RejectsTabled n q (err e) h = h
  initiate-RejectsTabled n q (ok c) h =
      let r = fetch (n + 1) (transfer q.amount_kobo q.reference c) in
      transferred-RejectsTabled q c (read_response r) (read_response-AreTabled r)

  send-RejectsTabled :
      (secret : Option String) (n : ℕ) (q : CashbackPaymentRequest)
      → RejectsTabled (paystack_send_cashback fetch secret n q)
  unfolding paystack_send_cashback
  send-RejectsTabled secret n q = elim (Bool-cases (is_blank secret)) [
    | inl free ↦ simp free tt
    | inr keyed ↦ elim (Bool-cases (is_blank q.bank_account_number || is_blank q.bank_code)) [
      | inl blank ↦
          let h : IsTabled (missing_bank_details_error _) = payment-IsTabled _ refl in
          simp (keyed, blank) h
      | inr given ↦
          let h : RejectsTabled
              (initiate fetch n q (recipient_code fetch n q q.provider_recipient_code)) =
            initiate-RejectsTabled n q (recipient_code fetch n q q.provider_recipient_code)
              (recipient_code-AreTabled n q q.provider_recipient_code) in
          simp (keyed, given) h
    ]
  ]

  -- Whatever Paystack answers, a rejected payment is retried exactly if the table marks the failure's
  -- code as retryable: a dropped connection, a limit, a server error, an error code of the map, a
  -- message of another kind, missing bank details, a body that cannot be read.
  pub paystack_send_cashback_tabled :
      (secret : Option String) (n : ℕ) (q : CashbackPaymentRequest) (e : PaymentError)
      → paystack_send_cashback fetch secret n q ≡ rejected e
      → FitsTable (classify_cashback_failure e)
  paystack_send_cashback_tabled secret n q e h =
      subst RejectsTabled h (send-RejectsTabled secret n q)

  send_on_file :
      (key : String) (n : ℕ) (q : CashbackPaymentRequest) (c : String)
      → (key == "") ≡ false
      → (is_blank q.bank_account_number || is_blank q.bank_code) ≡ false
      → q.provider_recipient_code ≡ some c
      → paystack_send_cashback fetch (some key) n q ≡ initiate fetch n q (ok c)
  unfolding paystack_send_cashback recipient_code
  send_on_file key n q c keyed bank code = simp (keyed, bank, code)

  transferred-same :
      (q p : CashbackPaymentRequest) (c : String) (r : Result TransferData)
      → q.reference ≡ p.reference
      → transferred fetch q c r ≡ transferred fetch p c r
  unfolding transferred
  transferred-same q p c (err e) h = refl
  transferred-same q p c (ok d) h = simp h

  initiate-same :
      (n : ℕ) (q p : CashbackPaymentRequest) (c : String)
      → q.amount_kobo ≡ p.amount_kobo
      → q.reference ≡ p.reference
      → initiate fetch n q (ok c) ≡ initiate fetch n p (ok c)
  unfolding initiate
  initiate-same n q p c amount reference = simp (
    amount,
    transferred-same q p c (read_response (fetch (n + 1) (transfer p.amount_kobo p.reference c)))
        reference,
    reference,
  )

  -- With a key and bank details, a request that carries a recipient code is paid to that recipient in
  -- one call of the API: its account number and bank code do not matter.
  pub paystack_send_cashback_recipient :
      (key : String) (n : ℕ) (q p : CashbackPaymentRequest) (c : String)
      → (key == "") ≡ false
      → (is_blank q.bank_account_number || is_blank q.bank_code) ≡ false
      → (is_blank p.bank_account_number || is_blank p.bank_code) ≡ false
      → q.provider_recipient_code ≡ some c
      → p.provider_recipient_code ≡ some c
      → q.amount_kobo ≡ p.amount_kobo
      → q.reference ≡ p.reference
      → paystack_send_cashback fetch (some key) n q ≡ paystack_send_cashback fetch (some key) n p
  paystack_send_cashback_recipient key n q p c keyed q_bank p_bank q_code p_code amount reference =
      send_on_file key n q c keyed q_bank q_code
      ∙ initiate-same n q p c amount reference
      ∙ sym (send_on_file key n p c keyed p_bank p_code)
