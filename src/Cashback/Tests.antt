-- ===== src/Cashback/Tests.antt =====
-- Runs of the cashback service on concrete data.
pub mod Tables
mod Banks
mod Payment
mod Retries
mod Transfer
use bumpa_achievement_system.Common.{ℕ, ◌+◌, String, true, some, [], if◌then◌else◌, nat_eq}
use bumpa_achievement_system.Events.{
  Env, BadgeUnlockedEvent, badge_unlocked, create_domain_event, UserSnapshot, insufficient_balance,
}
use bumpa_achievement_system.Outbox.Tests.Rows.{empty}
use bumpa_achievement_system.Outbox.Tests.Rows.{repository}
use bumpa_achievement_system.Cashback.Store.{
  CashbackTransaction, PayoutAccount, null, value, TransactionStatus,
}
use bumpa_achievement_system.Cashback.Jobs.{CashbackState}
use Tables.{database, empty as no_rows}

abbrev name : ℕ → String
name n =
    if nat_eq n 0 then "id0" else if nat_eq n 1 then "id1" else if nat_eq n 2 then "id2" else "id3"

abbrev pub env : Env
env = record { create_readable_id = λ prefix n. name n; now = λ n. 1000 + n }

abbrev pub ada : UserSnapshot
ada = record {
  id = "u1";
  email = "ada@example.com";
  name = "Ada";
  bank_account_number = some "0123456789";
  bank_code = some "058";
}

abbrev pub unlocked : BadgeUnlockedEvent
unlocked =
    create_domain_event badge_unlocked
      (record {
        badge_name = "Gold";
        reward_amount_kobo = some 30000;
        reward_currency = "NGN";
        user = ada;
      })
      "c1" "e1" 7

-- A row that waits for its payment.
abbrev pub waiting : CashbackTransaction
waiting = record {
  id = "t1";
  user_id = "u1";
  badge_name = "Gold";
  amount_kobo = 30000;
  status = TransactionStatus.pending;
  provider = "paystack";
  provider_reference = null;
  provider_recipient_code = null;
  correlation_id = value "c1";
  failure_reason = null;
  failure_code = null;
  retryable = null;
  retry_count = 0;
  next_retry_at = null;
}

abbrev pub processing : CashbackTransaction
processing = record waiting {
  status = TransactionStatus.processing;
  provider_reference = value "paystack_t1";
}

abbrev pub paid : CashbackTransaction
paid = record processing { status = TransactionStatus.successful }

abbrev pub failed : CashbackTransaction
failed = record processing {
  status = TransactionStatus.failed;
  failure_reason = value "insufficient balance";
  failure_code = value insufficient_balance;
  retryable = value true;
  retry_count = 1;
  next_retry_at = value 900;
}

abbrev pub account : PayoutAccount
account = record {
  id = "pa1";
  user_id = "u1";
  user_name = "Ada";
  bank_account_number = "0123456789";
  bank_code = "058";
  provider = "paystack";
  provider_recipient_code = value "RCP_1";
}

-- One transaction, and the account of its user.
abbrev pub state : CashbackTransaction → CashbackState database repository
state r = record {
  tables = database.save_account account (database.save_transaction r no_rows);
  outbox = record { rows = empty; sent = []; calls = 0 };
  queue = [];
  requests = [];
  calls = 0;
  drawn = 0;
}
