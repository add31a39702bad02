-- ===== src/Cashback/Tests/Tables.antt =====
-- Tables of cashback_db, which have the laws of the database.
use mathlib.Core.Path.{subst}
use bumpa_achievement_system.Common.{
  ◌≡◌, refl, ◌∙◌, sym, ap, String, Bool, true, false, ◌&&◌, Option, none, some, List, [], ◌∷◌, map,
  if◌then◌else◌, ◌==◌, Bool-cases, inl, inr, All, has, NoRepeat, filter, eq_iff, some-eq,
}
use bumpa_achievement_system.Common.Ordered.{
  mapped, filter-All, row, written, changed, row-id, row-Memᴰ, rows-found, row-written, row-changed,
  written-NoRepeat, changed-ids,
}
use bumpa_achievement_system.Cashback.Store.{
  CashbackDatabase, CashbackTransaction, PayoutAccount, Column, undefined, null, value,
  TransactionStatus, status_eq, stored, stored_account, patched, in_status,
}

abbrev key : CashbackTransaction → String
key r = r.id

pub record Tables : Type 0 where
  pub transactions : List CashbackTransaction
  pub once : NoRepeat (map key transactions)
  pub accounts : String → Option PayoutAccount
  pub events : List String

abbrev pub find_one : String → Tables → Option CashbackTransaction
find_one i t = row key i t.transactions

abbrev head : List CashbackTransaction → Option CashbackTransaction
head [] = none
head (r ∷ rs) = some r

abbrev column_eq : Column String → String → Bool
column_eq undefined x = false
column_eq null x = false
column_eq (value y) x = y == x

abbrev has_reference : String → CashbackTransaction → Bool
has_reference x r = column_eq r.provider_reference x

abbrev has_badge : String → String → CashbackTransaction → Bool
has_badge u b r = r.user_id == u && r.badge_name == b

abbrev select : (CashbackTransaction → Bool) → Tables → List CashbackTransaction
select p t = filter p t.transactions

abbrev reset : CashbackTransaction → CashbackTransaction
reset r = record r { retry_count = 0 }

abbrev account_of : String → Tables → Option PayoutAccount
account_of u t = t.accounts u

pub stored-id : (o : Option CashbackTransaction) (r : CashbackTransaction) → (stored o r).id ≡ r.id
stored-id none r = refl
stored-id (some old) r = refl

pub column_eq→eq : (c : Column String) (x : String) → column_eq c x ≡ true → c ≡ value x
column_eq→eq undefined x h = cc
column_eq→eq null x h = cc
column_eq→eq (value y) x h = ap value ((eq_iff y x).0 h)

-- An update leaves the primary key.
abbrev patched_row :
    TransactionStatus
    → (CashbackTransaction → CashbackTransaction)
    → CashbackTransaction
    → CashbackTransaction
patched_row s patch r = if status_eq r.status s then record (patch r) { id = r.id } else r

pub patched_row-id :
    (s : TransactionStatus) (patch : CashbackTransaction → CashbackTransaction)
    (r : CashbackTransaction)
    → (patched_row s patch r).id ≡ r.id
patched_row-id s patch r = elim (Bool-cases (status_eq r.status s)) [
  | inl y ↦ simp y
  | inr n ↦ simp n
]

pub mapped-patched :
    (s : TransactionStatus) (patch : CashbackTransaction → CashbackTransaction)
    (o : Option CashbackTransaction)
    → ((r : CashbackTransaction) → (patch r).id ≡ r.id)
    → mapped (patched_row s patch) o ≡ patched s patch o
mapped-patched s patch none k = refl
mapped-patched s patch (some r) k = elim (Bool-cases (status_eq r.status s)) [
  | inl y ↦ simp y (ap (λ i. some (record (patch r) { id = i })) (sym (k r)))
  | inr n ↦ simp n
]

pub head-All :
    (P : CashbackTransaction → Type 0) (rs : List CashbackTransaction) (r : CashbackTransaction)
    → All P rs
    → head rs ≡ some r
    → P r
head-All P [] r h e = cc
head-All P (q ∷ rs) r (p, h) e = subst P (some-eq e) p

pub select-found :
    (p : CashbackTransaction → Bool) (t : Tables)
    → All (λ (r : CashbackTransaction). (find_one r.id t ≡ some r) × (p r ≡ true)) (select p t)
select-found p t = filter-All _ p t.transactions (rows-found key t.transactions t.once)

abbrev save_row : CashbackTransaction → Tables → Tables
save_row r t = record t {
  transactions = written key (stored (find_one r.id t) r) t.transactions;
  once = written-NoRepeat key (stored (find_one r.id t) r) t.transactions t.once;
}

-- A change of the row of a key that keeps the keys.
abbrev change_row :
    String
    → (f : CashbackTransaction → CashbackTransaction)
    → ((r : CashbackTransaction) → (f r).id ≡ r.id)
    → Tables
    → Tables
change_row i f k t = record t {
  transactions = changed key i f t.transactions;
  once = subst NoRepeat (sym (changed-ids key i f t.transactions k)) t.once;
}

pub find-save_row :
    (j : String) (r : CashbackTransaction) (t : Tables)
    → find_one j (save_row r t)
      ≡ (if r.id == j then some (stored (find_one j t) r) else find_one j t)
find-save_row j r t =
    row-written key j (stored (find_one r.id t) r) t.transactions
    ∙ ap (λ i. if i == j then some (stored (find_one r.id t) r) else find_one j t)
        (stored-id (find_one r.id t) r)
    ∙ elim (Bool-cases (r.id == j)) [
      | inl own ↦ simp own (ap (λ i. some (stored (find_one i t) r)) ((eq_iff r.id j).0 own))
      | inr other ↦ simp other
    ]

abbrev pub database : CashbackDatabase
database = record {
  Tables = Tables;
  find_transaction = find_one;
  find_by_badge = λ u b t. head (select (has_badge u b) t);
  find_by_reference = λ x t. head (select (has_reference x) t);
  find_account = account_of;
  processed = λ i t. has t.events i;
  transactions = λ t. t.transactions;
  save_transaction = save_row;
  save_account = λ a t. record t {
    accounts = λ u. if a.user_id == u then some (stored_account (t.accounts u) a) else t.accounts u;
  };
  save_processed = λ i t. record t { events = i ∷ t.events };
  update_in = λ i s patch t. change_row i (patched_row s patch) (patched_row-id s patch) t;
  affected = λ i s t. in_status s (find_one i t);
  reset_retry_count = λ i t. change_row i reset (λ r. refl) t;
  find-save = find-save_row;
  find-update = λ j i s patch t k.
      row-changed key j i (patched_row s patch) t.transactions (patched_row-id s patch)
      ∙ ap (λ o. if i == j then o else find_one j t) (mapped-patched s patch (find_one j t) k);
  find-save_account = λ j a t. refl;
  find-save_processed = λ j i t. refl;
  affected_iff = λ i s t. refl;
  find-id = λ i t r h. row-id key i t.transactions r h;
  reference-found = λ x t r h.
      let (found, e) =
        head-All _ (select (has_reference x) t) r (select-found (has_reference x) t) h in
      (found, column_eq→eq r.provider_reference x e);
  processed-save_processed = λ i j t. refl;
  transactions-found = λ t. rows-found key t.transactions t.once;
  transactions-complete = λ i t r h. row-Memᴰ key i t.transactions r h;
  transactions-once = λ t. t.once;
  find_account-update = λ u i s patch t. refl;
}

abbrev pub empty : Tables
empty = record { transactions = []; once = tt; accounts = λ u. none; events = [] }
