-- ===== src/Cashback/Pay/Claim.antt =====
-- A job pays only what it has claimed.
use text.Mathlib.TextPositions.{eq_refl}
use bumpa_achievement_system.Common.{
  ℕ, ◌≡◌, refl, String, false, Option, none, some, Bool-cases, inl, inr,
}
use bumpa_achievement_system.Events.{Env}
use bumpa_achievement_system.Outbox.{Confirmation, OutboxRepository, OutboxOptions}
use bumpa_achievement_system.Cashback.Payments.{PaymentProvider}
use bumpa_achievement_system.Cashback.Store.{
  CashbackDatabase, CashbackTransaction, TransactionStatus, status_eq, patched, in_status,
}
use bumpa_achievement_system.Cashback.Jobs.{CashbackState}
use bumpa_achievement_system.Cashback.Pay.{Claimed, claim_payment, claiming}

-- A claimed row is not PENDING any more.
claiming-in_status :
    (reference : String) (o : Option CashbackTransaction)
    → in_status TransactionStatus.pending (patched TransactionStatus.pending (claiming reference) o)
      ≡ false
claiming-in_status reference none = refl
claiming-in_status reference (some r) =
    elim (Bool-cases (status_eq r.status TransactionStatus.pending)) [
      | inl free ↦ simp free
      | inr taken ↦ simp taken
    ]

module _ (database : CashbackDatabase) (repository : OutboxRepository) (options : OutboxOptions)
    (confirm : ℕ → Confirmation) (clock : ℕ → ℕ) (env : Env) (provider : PaymentProvider)
    (base_delay_ms : ℕ) where
  open database use {find_transaction}

  abbrev State : Type 0
  State = CashbackState database repository

  abbrev pub claim :
      CashbackTransaction
      → State
      → Claimed database repository options confirm clock env provider base_delay_ms
  claim = claim_payment database repository options confirm clock env provider base_delay_ms

  -- Two workers that have both read a row while it was PENDING: when both try to claim it, one after
  -- the other, with nothing in between on that row, the second does not get it.
  pub claim_payment_exclusive :
      (mine theirs : CashbackTransaction) (s t : State)
      → theirs.id ≡ mine.id
      → find_transaction mine.id t.tables ≡ find_transaction mine.id (claim mine s).state.tables
      → (claim theirs t).transaction ≡ none
  unfolding claim_payment
  claim_payment_exclusive mine theirs s t same kept = simp (
    database.affected_iff,
    same,
    kept,
    database.find-update _ _ _ (claiming _) _ (λ r. refl),
    eq_refl,
    claiming-in_status,
  )
