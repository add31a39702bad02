-- ===== src/Purchase.antt =====
-- apps/purchase-service/src/purchases/purchase.service.ts: `createPurchase`, which stores a purchase
-- with its outbox row, once for each idempotency key.
pub mod Once
pub mod Tests
use bumpa_achievement_system.Common.{
  ℕ, ◌+◌, ◌≡◌, String, Bool, false, Option, none, some, [], ◌∷◌, if◌then◌else◌, ◌==◌,
}
use bumpa_achievement_system.Events.{
  Env, EntityIdPrefix, UserSnapshot, PurchaseCompletedEvent, purchase_completed, purchase_event,
  create_domain_event, OutboxEvent, create_outbox_event,
}
use bumpa_achievement_system.Outbox.{
  Confirmation, OutboxRepository, OutboxOptions, OutboxState, publish_many,
}

-- CreatePurchaseDto
pub record CreatePurchaseDto : Type 0 where
  pub user_id : String
  pub email : String
  pub name : String
  pub amount_kobo : ℕ
  pub bank_account_number : Option String
  pub bank_code : Option String

-- entities/purchase.entity.ts
pub record Purchase : Type 0 where
  pub id : String
  pub user_id : String
  pub amount_kobo : ℕ
  pub idempotency_key : Option String

abbrev pub is_key : Option String → String → Bool
is_key none k = false
is_key (some j) k = j == k

-- purchase_db behind TypeORM. A purchase is saved under a new identifier, so it is a new row.
pub record PurchaseDatabase : Type 1 where
  pub Tables : Type 0
  pub find_by_idempotency_key : String → Tables → Option Purchase
  pub save_user : UserSnapshot → Tables → Tables
  pub save_purchase : Purchase → Tables → Tables
  pub find-save_user :
      (k : String) (u : UserSnapshot) (t : Tables)
      → find_by_idempotency_key k (save_user u t) ≡ find_by_idempotency_key k t
  -- The constraint on the keys lets a key in once.
  pub find-save_purchase :
      (k : String) (p : Purchase) (t : Tables)
      → find_by_idempotency_key k t ≡ none
      → find_by_idempotency_key k (save_purchase p t)
        ≡ (if is_key p.idempotency_key k then some p else none)

-- How the transaction ends: it commits; or it is rolled back because another request has stored the
-- key meanwhile, and the tables are that request's; or it is rolled back for another reason.
pub data TransactionEnd (T : Type 0) : Type 0 where
  commits : TransactionEnd T
  key_taken : T → TransactionEnd T
  fails : TransactionEnd T

-- createPurchase returns the identifier, or throws.
pub data CreateAnswer : Type 0 where
  created : String → CreateAnswer
  threw : CreateAnswer

abbrev pub build_user_snapshot : CreatePurchaseDto → UserSnapshot
build_user_snapshot dto = record {
  id = dto.user_id;
  email = dto.email;
  name = dto.name;
  bank_account_number = dto.bank_account_number;
  bank_code = dto.bank_code;
}

module _ (database : PurchaseDatabase) (repository : OutboxRepository) where
  pub record PurchaseState : Type 0 where
    pub tables : database.Tables
    pub outbox : OutboxState repository
    pub drawn : ℕ

module _ (database : PurchaseDatabase) (repository : OutboxRepository) (options : OutboxOptions)
    (confirm : ℕ → Confirmation) (clock : ℕ → ℕ) (env : Env) where
  open database use {Tables, find_by_idempotency_key, save_user, save_purchase}

  abbrev State : Type 0
  State = PurchaseState database repository

  pub build_purchase_completed_event :
      CreatePurchaseDto
      → (purchase_id correlation_id event_id : String) → ℕ
      → PurchaseCompletedEvent
  build_purchase_completed_event dto purchase_id correlation_id event_id now =
      create_domain_event purchase_completed
        (record {
          user_id = dto.user_id;
          purchase_id = purchase_id;
          amount_kobo = dto.amount_kobo;
          user = build_user_snapshot dto;
        })
        correlation_id event_id now

  -- The purchase and the outbox row of the request, with the draws n and n + 1.
  pub new_purchase : CreatePurchaseDto → Option String → ℕ → Purchase
  new_purchase dto key n = record {
    id = env.create_readable_id EntityIdPrefix.purchase n;
    user_id = dto.user_id;
    amount_kobo = dto.amount_kobo;
    idempotency_key = key;
  }

  pub new_outbox_row : CreatePurchaseDto → String → ℕ → OutboxEvent
  unfolding build_purchase_completed_event
  new_outbox_row dto correlation_id n =
      let e =
        build_purchase_completed_event dto (env.create_readable_id EntityIdPrefix.purchase n)
          correlation_id (env.create_readable_id EntityIdPrefix.event (n + 1)) (env.now n) in
      create_outbox_event e.event_id e.type (purchase_event e)

  -- The statements of the transaction, and the publication.
  pub store_purchase : CreatePurchaseDto → String → Option String → State → State
  unfolding new_purchase new_outbox_row
  store_purchase dto correlation_id key s =
      let row = new_outbox_row dto correlation_id s.drawn in
      record {
        tables =
            save_purchase (new_purchase dto key s.drawn)
              (save_user (build_user_snapshot dto) s.tables);
        outbox =
            publish_many repository options confirm clock (row.id ∷ [])
              (record s.outbox { rows = repository.save row s.outbox.rows });
        drawn = s.drawn + 2;
      }

  answer_existing : Option Purchase → CreateAnswer
  answer_existing none = threw
  answer_existing (some p) = created p.id

  -- The handler of a violation of the constraint on the keys; without a key it throws.
  pub raced : Option String → Tables → CreateAnswer
  unfolding answer_existing
  raced none t = threw
  raced (some key) t = if key == "" then threw else answer_existing (find_by_idempotency_key key t)

  insert_purchase :
      TransactionEnd Tables
      → CreatePurchaseDto
      → String
      → Option String
      → State
      → State × CreateAnswer
  unfolding store_purchase raced
  insert_purchase commits dto correlation_id key s = (
    store_purchase dto correlation_id key s,
    created (env.create_readable_id EntityIdPrefix.purchase s.drawn),
  )
  insert_purchase (key_taken t) dto correlation_id key s =
      (record s { tables = t; drawn = s.drawn + 2 }, raced key t)
  insert_purchase fails dto correlation_id key s = (record s { drawn = s.drawn + 2 }, threw)

  -- The lookup before: `none` without a key, and the empty key is none.
  pub find_existing : Option String → Tables → Option Purchase
  find_existing none t = none
  find_existing (some key) t = if key == "" then none else find_by_idempotency_key key t

  create_from :
      Option Purchase
      → TransactionEnd Tables
      → CreatePurchaseDto
      → String
      → Option String
      → State
      → State × CreateAnswer
  unfolding insert_purchase
  create_from (some existing) end dto correlation_id key s = (s, created existing.id)
  create_from none end dto correlation_id key s = insert_purchase end dto correlation_id key s

  -- createPurchase
  unfoldable pub create_purchase :
      TransactionEnd Tables
      → CreatePurchaseDto
      → String
      → Option String
      → State
      → State × CreateAnswer
  unfolding find_existing create_from
  create_purchase end dto correlation_id key s =
      create_from (find_existing key s.tables) end dto correlation_id key s
