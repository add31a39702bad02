-- ===== src/Outbox/Scheduled/LockStore.antt =====
-- The lock's key in Redis, which is not in the repository: an interface with the documented behaviour
-- of SET with NX and PX, GET, DEL and PEXPIRE on one key. A key that has expired is not there.
use bumpa_achievement_system.Common.{
  ℕ, ◌+◌, ◌≡◌, String, Bool, false, ◌&&◌, Option, none, some, if◌then◌else◌, ltb, nat_eq,
}

abbrev pub LockKey : Type 0
LockKey = String

-- `${process.pid}:${Date.now()}`: the text determines both numbers.
pub record LockValue : Type 0 where
  pub pid : ℕ
  pub time : ℕ

abbrev pub value_eq : LockValue → LockValue → Bool
value_eq v w = nat_eq v.pid w.pid && nat_eq v.time w.time

pub record Entry : Type 0 where
  pub value : LockValue
  pub expires_at : ℕ

abbrev pub is_live : ℕ → Option Entry → Bool
is_live now none = false
is_live now (some e) = ltb now e.expires_at

-- GET
abbrev pub read : ℕ → Option Entry → Option LockValue
read now none = none
read now (some e) = if ltb now e.expires_at then some e.value else none

abbrev pub is_value : LockValue → Option LockValue → Bool
is_value v none = false
is_value v (some w) = value_eq w v

abbrev pub extended : ℕ → Option Entry → Option Entry
extended expires_at none = none
extended expires_at (some e) = some (record e { expires_at = expires_at })

pub record Redis : Type 1 where
  pub Store : Type 0
  pub entry : LockKey → Store → Option Entry
  pub set_nx : LockKey → LockValue → ℕ → ℕ → Store → Store
  pub del : LockKey → Store → Store
  pub pexpire : LockKey → ℕ → ℕ → Store → Store
  pub entry-set_nx :
      (k : LockKey) (v : LockValue) (ttl now : ℕ) (s : Store)
      → entry k (set_nx k v ttl now s) ≡ (
          if is_live now (entry k s)
          then entry k s
          else some (record { value = v; expires_at = now + ttl }))
  pub entry-del : (k : LockKey) (s : Store) → entry k (del k s) ≡ none
  pub entry-pexpire :
      (k : LockKey) (ttl now : ℕ) (s : Store)
      → entry k (pexpire k ttl now s)
        ≡ (if is_live now (entry k s) then extended (now + ttl) (entry k s) else none)
