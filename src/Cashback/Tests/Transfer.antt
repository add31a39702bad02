-- ===== src/Cashback/Tests/Transfer.antt =====
-- Reports of transfers on concrete data.
use bumpa_achievement_system.Common.{
  ℕ, ◌≡◌, refl, String, true, none, some, List, [], ◌∷◌, if◌then◌else◌, ◌==◌,
}
use bumpa_achievement_system.Outbox.Tests.{options, down, clock}
use bumpa_achievement_system.Outbox.Tests.Rows.{repository}
use bumpa_achievement_system.Cashback.Payments.{other_error, classify_cashback_failure}
use bumpa_achievement_system.Cashback.Store.{CashbackTransaction, TransactionStatus, value, stored}
use bumpa_achievement_system.Cashback.Webhook.{
  WebhookData, verify_signature, confirmed, mark_transfer_successful,
}
use bumpa_achievement_system.Cashback.Webhook.Terminal.{
  verify_signature_sound, succeed, fail, mark_transfer_successful_once,
  mark_transfer_failed_records,
}
use bumpa_achievement_system.Cashback.Tests.{env, processing, state}
use bumpa_achievement_system.Cashback.Tests.Tables.{database}

abbrev hmac : String → String → List ℕ
hmac secret body = if body == "{}" then 171 ∷ 205 ∷ [] else 0 ∷ []

abbrev from_hex : String → List ℕ
from_hex text = if text == "abcd" then 171 ∷ 205 ∷ [] else []

good_signature : verify_signature hmac from_hex (some "sk") (some "{}") (some "abcd") ≡ true
unfolding verify_signature
good_signature = refl

verify_signature_sound_example :
    (k : String) × (b : String) × (x : String) × (some "sk" ≡ some k)
    × (some "{}" ≡ some b)
    × (some "abcd" ≡ some x)
    × (hmac k b ≡ from_hex x)
verify_signature_sound_example =
    verify_signature_sound hmac from_hex (some "sk") (some "{}") (some "abcd") good_signature

abbrev notice : WebhookData
notice = record {
  reference = some "paystack_t1";
  reason = none;
  failure_reason = some "insufficient balance";
}

abbrev after : CashbackTransaction
after = stored (some processing) (confirmed processing)

found_again :
    database.find_by_reference "paystack_t1"
      (succeed database repository options down clock env notice (state processing)).0.tables
    ≡ some after
unfolding mark_transfer_successful
found_again = refl

mark_transfer_successful_once_example :
    (succeed database repository options down clock env notice
      (succeed database repository options down clock env notice (state processing)).0).0
    ≡ (succeed database repository options down clock env notice (state processing)).0
mark_transfer_successful_once_example =
    mark_transfer_successful_once database repository options down clock env notice "paystack_t1"
      (state processing) processing after refl refl found_again refl

mark_transfer_failed_records_example :
    (q : CashbackTransaction) × (database.find_transaction "t1"
        (fail database repository options down clock env notice (state processing)).0.tables
      ≡ some q)
    × (q.status ≡ TransactionStatus.failed)
    × (q.failure_reason
        ≡ value (classify_cashback_failure (other_error "insufficient balance")).message)
    × (q.failure_code ≡ value (classify_cashback_failure (other_error "insufficient balance")).code)
    × (q.retryable
        ≡ value (classify_cashback_failure (other_error "insufficient balance")).retryable)
    × (q.retry_count ≡ processing.retry_count)
    × (q.next_retry_at ≡ processing.next_retry_at)
mark_transfer_failed_records_example =
    mark_transfer_failed_records database repository options down clock env notice "paystack_t1"
      (state processing) processing refl refl refl
