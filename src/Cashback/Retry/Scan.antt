-- ===== src/Cashback/Retry/Scan.antt =====
-- The scan that retries on its own.
use mathlib.Core.List.{append-nil, append_assoc}
use mathlib.Core.Path.{subst}
use bumpa_achievement_system.Common.{
  ℕ, ◌+◌, ◌≡◌, refl, ◌∙◌, ap, sym, String, true, false, ◌||◌, Option, none, some, List, [], ◌∷◌,
  ◌++◌, ◌==◌, Bool-cases, inl, inr, arith, length, All, All-map, map, filter, has, NoRepeat, eq_iff,
}
use bumpa_achievement_system.Common.Ordered.{filter-All, rows_that-NoRepeat}
use bumpa_achievement_system.Events.{Env}
use bumpa_achievement_system.Outbox.{OutboxRepository}
use bumpa_achievement_system.Cashback.Store.{
  CashbackDatabase, CashbackTransaction, PayoutAccount, TransactionStatus,
}
use bumpa_achievement_system.Cashback.Jobs.{CashbackState, CashbackJob}
use bumpa_achievement_system.Cashback.Retry.Due.{
  is_failed-status, can_be_paid, is_retried, retry_where-split, filter-filter,
}
use bumpa_achievement_system.Cashback.Retry.{
  build_retry_event, reopened, retry_found, retry_payment, retry_to, retry_each, retry_where,
  retry_eligible_failed_transactions,
}

module _ (database : CashbackDatabase) (repository : OutboxRepository) (env : Env)
    (provider_name : String) where
  open database use {find_transaction, find_account, transactions, update_in}

  abbrev State : Type 0
  State = CashbackState database repository

  abbrev key : CashbackTransaction → String
  key r = r.id

  -- The rows are FAILED in the tables.
  abbrev AreFailed : State → List CashbackTransaction → Type 0
  AreFailed s = All (λ (r : CashbackTransaction).
      (find_transaction r.id s.tables ≡ some r) × (r.status ≡ TransactionStatus.failed))

  -- The state after the retry of a row.
  abbrev retried : CashbackTransaction → PayoutAccount → State → State
  retried r a s = record s {
    tables = update_in r.id TransactionStatus.failed reopened s.tables;
    queue =
        s.queue ++ record { transaction_id = r.id; event = build_retry_event env r a s.drawn } ∷ [];
    drawn = s.drawn + 2;
  }

  retry_to-paid :
      (r : CashbackTransaction) (a : PayoutAccount) (s : State) (n : ℕ)
      → find_transaction r.id s.tables ≡ some r
      → r.status ≡ TransactionStatus.failed
      → can_be_paid (some a) ≡ true
      → retry_to database repository env provider_name r (some a) (s, n) ≡ (retried r a s, n + 1)
  unfolding retry_to retry_payment retry_found
  retry_to-paid r a s n found failed given =
      let blank : (a.bank_account_number == "" || a.bank_code == "") ≡ false =
        ground (arith, given) in
      simp (blank, found, failed)

  retry_to-unpaid :
      (r : CashbackTransaction) (o : Option PayoutAccount) (s : State) (n : ℕ)
      → can_be_paid o ≡ false
      → retry_to database repository env provider_name r o (s, n) ≡ (s, n)
  unfolding retry_to
  retry_to-unpaid r none s n h = refl
  retry_to-unpaid r (some a) s n h =
      let blank : (a.bank_account_number == "" || a.bank_code == "") ≡ true = ground (arith, h) in
      simp blank

  still_failed :
      (r : CashbackTransaction) (a : PayoutAccount) (s : State) (rs : List CashbackTransaction)
      → has (map key rs) r.id ≡ false
      → AreFailed s rs
      → AreFailed (retried r a s) rs
  still_failed r a s [] n h = tt
  still_failed r a s (q ∷ rs) n ((found, failed), hs) =
      let other : (r.id == q.id) ≡ false = ground (arith, n, eq_iff r.id q.id, eq_iff q.id r.id) in
      (
        (
          database.find-update q.id r.id TransactionStatus.failed reopened s.tables (λ x. refl)
              ∙ simp (other, found),
          failed,
        ),
        still_failed r a s rs (ground (arith, n)) hs,
      )

  -- What a run over the rows has queued: a job for each row that can be paid, in their order.
  record Queued (accounts : String → Option PayoutAccount) (rs : List CashbackTransaction) (n : ℕ)
      (s : State) (t : State × ℕ) : Type 0 where
    jobs : List CashbackJob
    added : t.0.queue ≡ s.queue ++ jobs
    named :
        map (λ (j : CashbackJob). j.transaction_id) jobs
        ≡ map key (filter (λ (r : CashbackTransaction). can_be_paid (accounts r.user_id)) rs)
    counted : t.1 ≡ length jobs + n

  none-Queued :
      (accounts : String → Option PayoutAccount) (n : ℕ) (s : State) → Queued accounts [] n s (s, n)
  none-Queued accounts n s = record {
    jobs = [];
    added = sym (append-nil s.queue);
    named = refl;
    counted = omega arith;
  }

  paid_account :
      (o : Option PayoutAccount) → can_be_paid o ≡ true → (a : PayoutAccount) × (o ≡ some a)
  paid_account none h = cc
  paid_account (some a) h = (a, refl)

  job_for : CashbackTransaction → PayoutAccount → State → CashbackJob
  job_for r a s = record { transaction_id = r.id; event = build_retry_event env r a s.drawn }

  -- One more row before those of a run.
  one-Queued :
      (accounts : String → Option PayoutAccount) (r : CashbackTransaction) (a : PayoutAccount)
      (rs : List CashbackTransaction) (n : ℕ) (s : State) (t : State × ℕ)
      → can_be_paid (accounts r.user_id) ≡ true
      → Queued accounts rs (n + 1) (retried r a s) t
      → Queued accounts (r ∷ rs) n s t
  unfolding job_for
  one-Queued accounts r a rs n s t given q = record {
    jobs = job_for r a s ∷ q.jobs;
    added = q.added ∙ append_assoc s.queue (job_for r a s ∷ []) q.jobs;
    named = simp given (ap (λ (l : List String). r.id ∷ l) q.named);
    counted = omega (arith, q.counted);
  }

  skipped-Queued :
      (accounts : String → Option PayoutAccount) (r : CashbackTransaction)
      (rs : List CashbackTransaction) (n : ℕ) (s : State) (t : State × ℕ)
      → can_be_paid (accounts r.user_id) ≡ false
      → Queued accounts rs n s t
      → Queued accounts (r ∷ rs) n s t
  skipped-Queued accounts r rs n s t missing q = record {
    jobs = q.jobs;
    added = q.added;
    named = simp missing q.named;
    counted = q.counted;
  }

  retry_each-Queued :
      (accounts : String → Option PayoutAccount) (rs : List CashbackTransaction) (s : State) (n : ℕ)
      → ((u : String) → find_account u s.tables ≡ accounts u)
      → AreFailed s rs
      → NoRepeat (map key rs)
      → Queued accounts rs n s (retry_each database repository env provider_name rs (s, n))
  unfolding retry_each
  retry_each-Queued accounts [] s n same f h = none-Queued accounts n s
  retry_each-Queued accounts (r ∷ rs) s n same ((found, failed), f) (once, h) =
      elim (Bool-cases (can_be_paid (accounts r.user_id))) [
        | inl given ↦
            let (a, own) = paid_account (accounts r.user_id) given in
            let paid : can_be_paid (some a) ≡ true = sym (ap can_be_paid own) ∙ given in
            let later =
              retry_each-Queued accounts rs (retried r a s) (n + 1)
                (λ u.
                  database.find_account-update u r.id TransactionStatus.failed reopened s.tables
                  ∙ same u)
                (still_failed r a s rs once f) h in
            one-Queued accounts r a rs n s _ given (
              subst
                (λ (x : State × ℕ).
                  Queued accounts rs (n + 1) (retried r a s)
                    (retry_each database repository env provider_name rs x))
                (sym (
                  ap (λ o. retry_to database repository env provider_name r o (s, n))
                    (same r.user_id ∙ own)
                  ∙ retry_to-paid r a s n found failed paid))
                later)
        | inr missing ↦ skipped-Queued accounts r rs n s _ missing (
            subst
              (λ (x : State × ℕ).
                Queued accounts rs n s (retry_each database repository env provider_name rs x))
              (sym (
                retry_to-unpaid r (find_account r.user_id s.tables) s n
                  (ap can_be_paid (same r.user_id) ∙ missing)))
              (retry_each-Queued accounts rs s n same f h))
      ]

  -- The rows that the query answers.
  abbrev chosen : ℕ → State → List CashbackTransaction
  chosen most s = filter (retry_where most (env.now s.drawn)) (transactions s.tables)

  chosen-AreFailed : (most : ℕ) (s : State) → AreFailed s (chosen most s)
  chosen-AreFailed most s =
      All-map _ _ (chosen most s)
        (λ r h. (
          h.0,
          is_failed-status r.status
              (ground (arith, h.1, retry_where-split most (env.now s.drawn) r)),
        ))
        (filter-All _ (retry_where most (env.now s.drawn)) (transactions s.tables)
          (database.transactions-found s.tables))

  -- A scan that does not find another one running queues exactly one job for each row of the table that
  -- is FAILED, retryable, below the configured number of retries and due, and whose user has an account
  -- with a number and a code, in the order of the query, and it reports how many these are.
  pub retry_eligible_failed_transactions_lem :
      (most : ℕ) (s : State)
      → (jobs : List CashbackJob) × ((retry_eligible_failed_transactions database repository env
            provider_name false most s).0.queue
          ≡ s.queue ++ jobs)
        × (map (λ (j : CashbackJob). j.transaction_id) jobs
            ≡ map
                (λ (r : CashbackTransaction). r.id)
                (filter
                  (λ (r : CashbackTransaction).
                    is_retried most (env.now s.drawn) r (find_account r.user_id s.tables))
                  (transactions s.tables)))
        × ((retry_eligible_failed_transactions database repository env provider_name false most s).1
            ≡ length jobs)
  unfolding retry_eligible_failed_transactions
  retry_eligible_failed_transactions_lem most s =
      let q =
        retry_each-Queued (λ u. find_account u s.tables) (chosen most s) s 0 (λ u. refl)
          (chosen-AreFailed most s)
          (rows_that-NoRepeat key (retry_where most (env.now s.drawn)) (transactions s.tables)
            (database.transactions-once s.tables)) in
      (
        q.jobs,
        q.added,
        q.named
            ∙ ap (map key) (
                filter-filter (retry_where most (env.now s.drawn)) _ _ (transactions s.tables)
                  (λ r. ground (arith, retry_where-split most (env.now s.drawn) r))),
        omega (arith, q.counted),
      )
