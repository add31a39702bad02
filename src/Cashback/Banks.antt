-- ===== src/Cashback/Banks.antt =====
-- apps/cashback-service/src/payments/banks.service.ts and nigerian-banks.fallback.ts: the list of
-- banks, which the service asks of Paystack and keeps for twelve hours. `fetch n` answers the request
-- number n. `toLowerCase` is that of the ASCII letters, `trim` that of the ASCII white space.
mod Fallback
pub use Fallback.*
pub mod Kept
pub mod Named
use bumpa_achievement_system.Common.{
  ℕ, ◌+◌, ◌-◌, ◌*◌, String, Bool, true, false, not, ◌||◌, ◌&&◌, Option, none, some, List, [], ◌∷◌,
  ◌++◌, if◌then◌else◌, leb, nat_eq, filter, ◌==◌, codes,
}
use bumpa_achievement_system.Events.{provider_unavailable}
use bumpa_achievement_system.Json.{
  Json, undefined, null, boolean, number, string, array, object, Items, nil, cons, Fields, get,
  is_true,
}
use bumpa_achievement_system.Cashback.Payments.{
  payment_error, other_error, classify_cashback_failure,
}
use bumpa_achievement_system.Cashback.Payments.Provider.{Result, ok, err, is_blank}
use bumpa_achievement_system.Cashback.Payments.Text.{lower_codes, contains}

-- CACHE_TTL_MS
abbrev pub cache_ttl_ms : ℕ
cache_ttl_ms = 12 * 60 * 60 * 1000

-- What `fetch` and the parser make of the request.
pub data BankAnswer : Type 0 where
  unreachable : BankAnswer
  not_json : BankAnswer
  replied : (ok : Bool) (status : ℕ) → Json → BankAnswer

pub record Cached : Type 0 where
  pub banks : List BankListing
  pub fetched_at : ℕ

-- The field `cached`, and how many requests were sent.
pub record BanksService : Type 0 where
  pub cached : Option Cached
  pub fetches : ℕ

abbrev pub new_service : BanksService
new_service = record { cached = none; fetches = 0 }

-- typeof v === 'string' ? v : d
abbrev string_or : String → Json → String
string_or d (string s) = s
string_or d undefined = d
string_or d null = d
string_or d (boolean b) = d
string_or d (number n) = d
string_or d (array l) = d
string_or d (object fs) = d

-- The elements of `data` that are objects, as rows.
abbrev listing : Json → List BankListing → List BankListing
listing (object fs) rest =
    record { name = string_or "" (get "name" fs); code = string_or "" (get "code" fs) } ∷ rest
listing undefined rest = rest
listing null rest = rest
listing (boolean b) rest = rest
listing (number n) rest = rest
listing (string s) rest = rest
listing (array l) rest = rest

pub listings : Items → List BankListing
unfolding get
listings nil = []
listings (cons x l) = listing x (listings l)

-- bank.name && bank.code
abbrev pub is_named : BankListing → Bool
is_named b = not (b.name == "") && not (b.code == "")

-- A response that is not accepted: the message is that of the body, where it has one.
pub bank_failure : ℕ → String → Result (List BankListing)
bank_failure status message =
    if nat_eq status 429 || leb 500 status
    then err (
        payment_error (record { message = message; code = provider_unavailable; retryable = true }))
    else err (payment_error (classify_cashback_failure (other_error message)))

abbrev unavailable : String → Result (List BankListing)
unavailable message =
    err
      (payment_error (record { message = message; code = provider_unavailable; retryable = true }))

-- Array.isArray(data), and what is kept of it.
pub banks_of : Json → Result (List BankListing)
unfolding listings
banks_of (array l) = ok (filter is_named (listings l))
banks_of undefined = unavailable "Paystack bank list response is missing data"
banks_of null = unavailable "Paystack bank list response is missing data"
banks_of (boolean b) = unavailable "Paystack bank list response is missing data"
banks_of (number n) = unavailable "Paystack bank list response is missing data"
banks_of (string s) = unavailable "Paystack bank list response is missing data"
banks_of (object fs) = unavailable "Paystack bank list response is missing data"

pub read_banks : Bool → ℕ → Json → Result (List BankListing)
unfolding banks_of bank_failure get
read_banks accepts status (object fs) =
    if not accepts || not (is_true (get "status" fs))
    then bank_failure status (string_or "Paystack bank list request failed" (get "message" fs))
    else banks_of (get "data" fs)
read_banks accepts status undefined = bank_failure status "Paystack bank list request failed"
read_banks accepts status null = bank_failure status "Paystack bank list request failed"
read_banks accepts status (boolean b) = bank_failure status "Paystack bank list request failed"
read_banks accepts status (number n) = bank_failure status "Paystack bank list request failed"
read_banks accepts status (string s) = bank_failure status "Paystack bank list request failed"
read_banks accepts status (array l) = bank_failure status "Paystack bank list request failed"

abbrev pub stale_or_fallback : Option Cached → List BankListing
stale_or_fallback none = nigerian_banks_fallback
stale_or_fallback (some c) = c.banks

unfoldable pub fetch_from_paystack : Option Cached → BankAnswer → Result (List BankListing)
unfolding read_banks
fetch_from_paystack cached unreachable = ok (stale_or_fallback cached)
fetch_from_paystack cached not_json = unavailable "Paystack returned an invalid bank list response"
fetch_from_paystack cached (replied accepts status body) = read_banks accepts status body

abbrev pub is_fresh : ℕ → Option Cached → Bool
is_fresh now none = false
is_fresh now (some c) = not (leb cache_ttl_ms (now - c.fetched_at))

-- The field is set only where the request did not throw.
abbrev pub fetched :
    ℕ → BanksService → Result (List BankListing) → BanksService × Result (List BankListing)
fetched now s (ok banks) = (
  record { cached = some (record { banks = banks; fetched_at = now }); fetches = s.fetches + 1 },
  ok banks,
)
fetched now s (err e) = (record s { fetches = s.fetches + 1 }, err e)

-- String.prototype.trim
abbrev is_space : ℕ → Bool
is_space c = nat_eq c 32 || (leb 9 c && leb c 13)

trim_start : List ℕ → List ℕ
trim_start [] = []
trim_start (c ∷ cs) = let rest = trim_start cs in if is_space c then rest else c ∷ cs

-- A trailing white space has none but white space after it.
abbrev keep_if : ℕ → List ℕ → List ℕ
keep_if c [] = if is_space c then [] else c ∷ []
keep_if c (d ∷ cs) = c ∷ d ∷ cs

trim_end : List ℕ → List ℕ
trim_end [] = []
trim_end (c ∷ cs) = keep_if c (trim_end cs)

-- The needle is trimmed and in lower case; a code is compared as it is.
pub matches : List ℕ → BankListing → Bool
unfolding contains lower_codes
matches needle b = contains needle (lower_codes b.name) || contains needle (codes b.code)

unfoldable pub searched : Option String → List BankListing → List BankListing
unfolding matches trim_start trim_end lower_codes
searched none banks = banks
searched (some search) banks =
    if search == ""
    then banks
    else filter (matches (trim_end (trim_start (lower_codes search)))) banks

abbrev pub in_result :
    (List BankListing → List BankListing) → Result (List BankListing) → Result (List BankListing)
in_result f (ok banks) = ok (f banks)
in_result f (err e) = err e

-- A request: when it reads the clock, before the request of Paystack and after.
pub record BanksRequest : Type 0 where
  pub search : Option String
  pub now : ℕ
  pub after : ℕ

module _ (secret_key : Option String) (fetch : ℕ → BankAnswer) where
  unfoldable pub get_banks : ℕ → ℕ → BanksService → BanksService × Result (List BankListing)
  unfolding fetch_from_paystack
  get_banks now after s =
      if is_blank secret_key
      then (s, ok nigerian_banks_fallback)
      else if is_fresh now s.cached
      then (s, ok (stale_or_fallback s.cached))
      else fetched after s (fetch_from_paystack s.cached (fetch s.fetches))

  unfoldable pub list_banks : BanksRequest → BanksService → BanksService × Result (List BankListing)
  unfolding get_banks searched
  list_banks r s =
      let (s', banks) = get_banks r.now r.after s in (s', in_result (searched r.search) banks)

  -- The requests of a process, one after the other.
  unfoldable pub list_each :
      List BanksRequest → BanksService → BanksService × List (Result (List BankListing))
  unfolding list_banks
  list_each [] s = (s, [])
  list_each (r ∷ rs) s =
      let (s', answer) = list_banks r s in
      let (s'', answers) = list_each rs s' in (s'', answer ∷ answers)
