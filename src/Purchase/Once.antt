-- ===== src/Purchase/Once.antt =====
-- One purchase for each idempotency key.
use text.Mathlib.TextPositions.{eq_refl}
use bumpa_achievement_system.Common.{ℕ, ◌≡◌, ◌∙◌, String, false, Option, none, some, ◌==◌}
use bumpa_achievement_system.Events.{Env, EntityIdPrefix}
use bumpa_achievement_system.Outbox.{Confirmation, OutboxRepository, OutboxOptions}
use bumpa_achievement_system.Purchase.{
  CreatePurchaseDto, Purchase, PurchaseDatabase, PurchaseState, TransactionEnd, commits,
  CreateAnswer, created, build_user_snapshot, new_purchase, store_purchase, find_existing,
  insert_purchase, create_from, create_purchase,
}

module _ (database : PurchaseDatabase) (repository : OutboxRepository) (options : OutboxOptions)
    (confirm : ℕ → Confirmation) (clock : ℕ → ℕ) (env : Env) where
  open database use {Tables, find_by_idempotency_key}

  abbrev State : Type 0
  State = PurchaseState database repository

  abbrev pub create :
      TransactionEnd Tables
      → CreatePurchaseDto
      → String
      → Option String
      → State
      → State × CreateAnswer
  create = create_purchase database repository options confirm clock env

  create_existing :
      (end : TransactionEnd Tables) (dto : CreatePurchaseDto) (c k : String) (s : State)
      (p : Purchase)
      → (k == "") ≡ false
      → find_by_idempotency_key k s.tables ≡ some p
      → create end dto c (some k) s ≡ (s, created p.id)
  unfolding create_purchase create_from find_existing
  create_existing end dto c k s p given found = simp (given, found)

  create_new :
      (dto : CreatePurchaseDto) (c k : String) (s : State)
      → (k == "") ≡ false
      → find_by_idempotency_key k s.tables ≡ none
      → create commits dto c (some k) s ≡ (
        store_purchase database repository options confirm clock env dto c (some k) s,
        created (env.create_readable_id EntityIdPrefix.purchase s.drawn),
      )
  unfolding create_purchase create_from find_existing insert_purchase
  create_new dto c k s given new = simp (given, new)

  stored_key :
      (dto : CreatePurchaseDto) (c k : String) (s : State)
      → find_by_idempotency_key k s.tables ≡ none
      → find_by_idempotency_key k
          (store_purchase database repository options confirm clock env dto c (some k) s).tables
        ≡ some (new_purchase database repository options confirm clock env dto (some k) s.drawn)
  unfolding store_purchase new_purchase
  stored_key dto c k s new =
      database.find-save_purchase k _ _
        (database.find-save_user k (build_user_snapshot dto) s.tables ∙ new)
      ∙ simp eq_refl

  -- A request with a new key that commits is done once: a later request with that key, whatever it
  -- asks for and however its transaction would end, returns the same purchase and changes nothing.
  pub create_purchase_once :
      (dto again : CreatePurchaseDto) (c d k : String) (s : State) (end : TransactionEnd Tables)
      → (k == "") ≡ false
      → find_by_idempotency_key k s.tables ≡ none
      → create end again d (some k) (create commits dto c (some k) s).0
        ≡ ((create commits dto c (some k) s).0, (create commits dto c (some k) s).1)
  unfolding new_purchase
  create_purchase_once dto again c d k s end given new =
      let t = store_purchase database repository options confirm clock env dto c (some k) s in
      simp (create_new dto c k s given new) (
        create_existing end again d k t
          (new_purchase database repository options confirm clock env dto (some k) s.drawn) given
          (stored_key dto c k s new))
