-- ===== src/Purchase/Tests.antt =====
-- Purchases on a concrete table.
use bumpa_achievement_system.Common.{
  ◌+◌, ◌≡◌, refl, none, some, List, [], ◌∷◌, find, if◌then◌else◌, nat_eq,
}
use bumpa_achievement_system.Events.{Env, UserSnapshot}
use bumpa_achievement_system.Outbox.Tests.{options, down, clock}
use bumpa_achievement_system.Outbox.Tests.Rows.{repository, empty}
use bumpa_achievement_system.Purchase.{
  CreatePurchaseDto, Purchase, PurchaseDatabase, PurchaseState, commits, fails, is_key,
  create_purchase,
}
use bumpa_achievement_system.Purchase.Once.{create_purchase_once}

-- The purchases, newest first, and the users.
abbrev database : PurchaseDatabase
database = record {
  Tables = List Purchase × List UserSnapshot;
  find_by_idempotency_key = λ k t. find (λ (p : Purchase). is_key p.idempotency_key k) t.0;
  save_user = λ u t. (t.0, u ∷ t.1);
  save_purchase = λ p t. (p ∷ t.0, t.1);
  find-save_user = λ k u t. refl;
  find-save_purchase = λ k p t new. simp new;
}

abbrev env : Env
env = record {
  create_readable_id = λ prefix n. if nat_eq n 0 then "pur_0" else "id_1";
  now = λ n. 1000 + n;
}

abbrev request : CreatePurchaseDto
request = record {
  user_id = "u1";
  email = "ada@example.com";
  name = "Ada";
  amount_kobo = 5000;
  bank_account_number = none;
  bank_code = none;
}

abbrev start : PurchaseState database repository
start = record {
  tables = ([], []);
  outbox = record { rows = empty; sent = []; calls = 0 };
  drawn = 0;
}

create_purchase_once_example :
    create_purchase database repository options down clock env fails
      (record request { amount_kobo = 7000 })
      "c2"
      (some "k1")
      (create_purchase database repository options down clock env commits request "c1"
        (some "k1")
        start).0
    ≡ (
      (create_purchase database repository options down clock env commits request "c1"
          (some "k1")
          start).0,
      (create_purchase database repository options down clock env commits request "c1"
          (some "k1")
          start).1,
    )
create_purchase_once_example =
    create_purchase_once database repository options down clock env request
      (record request { amount_kobo = 7000 }) "c1" "c2" "k1" start fails refl refl
