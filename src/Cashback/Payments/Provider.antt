-- ===== src/Cashback/Payments/Provider.antt =====
-- apps/cashback-service/src/payments/paystack-payment.provider.ts, mock-payment.provider.ts and
-- payment-provider.factory.ts: the two providers. Paystack's API is outside: `fetch n path` answers
-- the call number n. A response is seen through the properties that the code reads.
pub mod Laws
use bumpa_achievement_system.Common.{
  ℕ, ◌+◌, String, Bool, true, false, not, ◌||◌, Option, none, some, if◌then◌else◌, leb, nat_eq,
  concat_text, ◌==◌,
}
use bumpa_achievement_system.Events.{
  CashbackFailureCode, insufficient_balance, invalid_account, duplicate_reference,
  provider_misconfigured, provider_rejected, provider_unavailable,
}
use bumpa_achievement_system.Cashback.Payments.{
  PaymentError, payment_error, other_error, missing_bank_details_error, CashbackPaymentRequest,
  accepted_pending, accepted_successful, SendResult, sent, rejected, PaymentProvider,
  classify_cashback_failure,
}

-- The object `data` of a response.
pub record TransferData : Type 0 where
  pub recipient_code : Option String
  pub reference : Option String

-- A parsed body: the strings `message` and `code`, the Boolean `status`, the object `data`; `none`
-- where the property is absent or of another type. `error_code` is `code` in lower case.
pub record PaystackBody : Type 0 where
  pub message : Option String
  pub status : Option Bool
  pub error_code : Option String
  pub data' : Option TransferData

pub data FetchResult : Type 0 where
  unreachable : String → FetchResult  -- fetch rejects
  not_json : String → FetchResult  -- the body does not parse; the parser's message
  not_an_object : FetchResult  -- it parses to something else than an object
  response : (ok : Bool) (status : ℕ) → PaystackBody → FetchResult

-- What the two calls send.
pub data PaystackCall : Type 0 where
  transferrecipient : (name account_number bank_code : String) → PaystackCall
  transfer : (amount : ℕ) (reference recipient : String) → PaystackCall

pub data Result {ℓ} (A : Type ℓ) : Type ℓ where
  ok : A → Result A
  err : PaymentError → Result A

-- PAYSTACK_ERROR_CODE_MAP
-- The names that every object inherits, such as `constructor`, are not codes of Paystack and are left
-- out.
unfoldable pub paystack_error_code_map : String → Option (CashbackFailureCode × Bool)
paystack_error_code_map c =
    if c == "insufficient_balance"
    then some (insufficient_balance, true)
    else if c == "invalid_bank_code"
    then some (invalid_account, false)
    else if c == "invalid_account_number"
    then some (invalid_account, false)
    else if c == "invalid_transfer_recipient"
    then some (invalid_account, false)
    else if c == "duplicate_transfer_reference"
    then some (duplicate_reference, true)
    else if c == "invalid_key"
    then some (provider_misconfigured, false)
    else if c == "missing_params" || c == "invalid_params" || c == "invalid_amount"
    then some (provider_rejected, false)
    else none

abbrev pub or_default : Option String → String → String
or_default none s = s
or_default (some t) s = t

-- `errorCode ? MAP[errorCode] : undefined`; the empty text is false.
mapped_code : Option String → Option (CashbackFailureCode × Bool)
mapped_code none = none
mapped_code (some c) = if c == "" then none else paystack_error_code_map c

from_code : Option (CashbackFailureCode × Bool) → String → PaymentError
from_code (some (code, retryable)) message =
    payment_error (record { message = message; code = code; retryable = retryable })
from_code none message = payment_error (classify_cashback_failure (other_error message))

-- The error of a response that is not ok.
pub api_error : ℕ → String → Option String → PaymentError
unfolding mapped_code from_code paystack_error_code_map
api_error status message error_code =
    if nat_eq status 429 || leb 500 status
    then payment_error (record { message = message; code = provider_unavailable; retryable = true })
    else from_code (mapped_code error_code) message

abbrev pub is_true : Option Bool → Bool
is_true none = false
is_true (some b) = b

require_data : Option TransferData → Result TransferData
require_data none = err (other_error "Paystack response is missing data")
require_data (some d) = ok d

-- postToPaystack, from the answer of `fetch`.
pub read_response : FetchResult → Result TransferData
unfolding api_error require_data
read_response (unreachable message) = err (
    payment_error (record {
      message = concat_text "Could not reach Paystack: " message;
      code = provider_unavailable;
      retryable = true;
    }))
read_response (not_json message) = err (other_error message)
read_response not_an_object = err (other_error "Paystack returned an invalid JSON response")
read_response (response ok' status body) =
    if not ok' || not (is_true body.status)
    then err (api_error status (or_default body.message "Paystack request failed") body.error_code)
    else require_data body.data'

-- readRequiredString(data, 'recipient_code'); the empty text counts as missing.
require_recipient : Option String → Result String
require_recipient none = err (other_error "Paystack response is missing recipient_code")
require_recipient (some c) =
    if c == "" then err (other_error "Paystack response is missing recipient_code") else ok c

recipient_of : Result TransferData → Result String
unfolding require_recipient
recipient_of (err e) = err e
recipient_of (ok d) = require_recipient d.recipient_code

abbrev pub is_blank : Option String → Bool
is_blank none = true
is_blank (some s) = s == ""

module _ (fetch : ℕ → PaystackCall → FetchResult) where
  -- request.providerRecipientCode ?? (await this.createTransferRecipient(…)).recipientCode
  pub recipient_code : ℕ → CashbackPaymentRequest → Option String → Result String
  unfolding read_response recipient_of
  recipient_code n request (some code) = ok code
  recipient_code n request none = recipient_of (
      read_response (
        fetch n (
          transferrecipient request.user_name (or_default request.bank_account_number "")
            (or_default request.bank_code ""))))

  transferred : CashbackPaymentRequest → String → Result TransferData → SendResult
  transferred request code (err e) = rejected e
  transferred request code (ok d) = sent (record {
    provider = "paystack";
    reference = or_default d.reference request.reference;
    status = accepted_pending;
    provider_recipient_code = some code;
  })

  initiate : ℕ → CashbackPaymentRequest → Result String → SendResult
  unfolding read_response transferred
  initiate n request (err e) = rejected e
  initiate n request (ok code) =
      transferred request code
        (read_response (fetch (n + 1) (transfer request.amount_kobo request.reference code)))

  -- PaystackPaymentProvider.sendCashback; the calls of `fetch` are numbered from n.
  unfoldable pub paystack_send_cashback : Option String → ℕ → CashbackPaymentRequest → SendResult
  unfolding recipient_code initiate
  paystack_send_cashback secret_key n request =
      if is_blank secret_key
      then sent (record {
        provider = "paystack";
        reference = request.reference;
        status = accepted_successful;
        provider_recipient_code = none;
      })
      else if is_blank request.bank_account_number || is_blank request.bank_code
      then rejected (
          missing_bank_details_error
            "Bank account number and bank code are required for Paystack cashback")
      else initiate n request (recipient_code n request request.provider_recipient_code)

  abbrev pub paystack_provider : Option String → PaymentProvider
  paystack_provider secret_key = record {
    name = "paystack";
    send_cashback = paystack_send_cashback secret_key;
  }

-- MockPaymentProvider
abbrev pub mock_provider : PaymentProvider
mock_provider = record {
  name = "mock";
  send_cashback = λ n request. sent (record {
    provider = "mock";
    reference = request.reference;
    status = accepted_successful;
    provider_recipient_code = none;
  });
}

-- PaymentProviderFactory.getProvider, from the configured name: an unknown one falls back to the mock.
unfoldable pub get_provider : PaymentProvider → Option String → PaymentProvider
get_provider paystack none = mock_provider
get_provider paystack (some configured) =
    if configured == "paystack" then paystack else mock_provider
