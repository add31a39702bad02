-- ===== src/Cashback/Banks/Named.antt =====
-- What the lists of banks hold, over any requests.
use bumpa_achievement_system.Common.{
  ℕ, ◌≡◌, refl, Bool, true, false, none, some, List, [], ◌∷◌, Option, String, All, all, filter,
  ◌==◌, if◌then◌else◌, arith, Bool-cases, inl, inr,
}
use bumpa_achievement_system.Json.{
  Json, undefined, null, boolean, number, string, array, object, get,
}
use bumpa_achievement_system.Cashback.Payments.Provider.{Result, ok, err, is_blank}
use bumpa_achievement_system.Cashback.Banks.{
  BankListing, nigerian_banks_fallback, BankAnswer, unreachable, not_json, replied, Cached,
  BanksService, new_service, is_named, bank_failure, banks_of, listings, read_banks,
  stale_or_fallback, fetch_from_paystack, is_fresh, fetched, searched, in_result, BanksRequest,
  get_banks, list_banks, list_each,
}

-- Every bank has a name and a code.
abbrev pub AreNamed : List BankListing → Type 0
AreNamed banks = All (λ (b : BankListing). is_named b ≡ true) banks

abbrev pub IsNamed : Result (List BankListing) → Type 0
IsNamed (ok banks) = AreNamed banks
IsNamed (err e) = Unit

abbrev CacheIsNamed : Option Cached → Type 0
CacheIsNamed none = Unit
CacheIsNamed (some c) = AreNamed c.banks

all-AreNamed : (l : List BankListing) → all is_named l ≡ true → AreNamed l
all-AreNamed [] h = tt
all-AreNamed (b ∷ l) h = (ground (arith, h), all-AreNamed l (ground (arith, h)))

fallback-AreNamed : AreNamed nigerian_banks_fallback
fallback-AreNamed = all-AreNamed nigerian_banks_fallback refl

filter-AreNamed : (l : List BankListing) → AreNamed (filter is_named l)
filter-AreNamed [] = tt
filter-AreNamed (b ∷ l) = elim (Bool-cases (is_named b)) [
  | inl h ↦ rw h (h, filter-AreNamed l)
  | inr h ↦ rw h (filter-AreNamed l)
]

filtered-AreNamed :
    (p : BankListing → Bool) (l : List BankListing) → AreNamed l → AreNamed (filter p l)
filtered-AreNamed p [] h = tt
filtered-AreNamed p (b ∷ l) (h, hs) = elim (Bool-cases (p b)) [
  | inl e ↦ rw e (h, filtered-AreNamed p l hs)
  | inr e ↦ rw e (filtered-AreNamed p l hs)
]

banks_of-IsNamed : (data' : Json) → IsNamed (banks_of data')
unfolding banks_of
banks_of-IsNamed (array l) = filter-AreNamed (listings l)
banks_of-IsNamed undefined = tt
banks_of-IsNamed null = tt
banks_of-IsNamed (boolean b) = tt
banks_of-IsNamed (number n) = tt
banks_of-IsNamed (string s) = tt
banks_of-IsNamed (object fs) = tt

bank_failure-IsNamed : (status : ℕ) (message : String) → IsNamed (bank_failure status message)
unfolding bank_failure
bank_failure-IsNamed status message = ground arith

either-IsNamed :
    (b : Bool) (x y : Result (List BankListing))
    → IsNamed x
    → IsNamed y
    → IsNamed (if b then x else y)
either-IsNamed true x y h k = h
either-IsNamed false x y h k = k

fetch_from_paystack-IsNamed :
    (c : Option Cached) (a : BankAnswer)
    → AreNamed (stale_or_fallback c)
    → IsNamed (fetch_from_paystack c a)
unfolding fetch_from_paystack read_banks
fetch_from_paystack-IsNamed c unreachable h = h
fetch_from_paystack-IsNamed c not_json h = tt
fetch_from_paystack-IsNamed c (replied accepts status (object fs)) h =
    either-IsNamed _ (bank_failure status _) (banks_of (get "data" fs))
      (bank_failure-IsNamed status _) (banks_of-IsNamed (get "data" fs))
fetch_from_paystack-IsNamed c (replied accepts status undefined) h = bank_failure-IsNamed status _
fetch_from_paystack-IsNamed c (replied accepts status null) h = bank_failure-IsNamed status _
fetch_from_paystack-IsNamed c (replied accepts status (boolean b)) h = bank_failure-IsNamed status _
fetch_from_paystack-IsNamed c (replied accepts status (number n)) h = bank_failure-IsNamed status _
fetch_from_paystack-IsNamed c (replied accepts status (string s)) h = bank_failure-IsNamed status _
fetch_from_paystack-IsNamed c (replied accepts status (array l)) h = bank_failure-IsNamed status _

searched-IsNamed :
    (search : Option String) (a : Result (List BankListing))
    → IsNamed a
    → IsNamed (in_result (searched search) a)
unfolding searched
searched-IsNamed none (ok banks) h = h
searched-IsNamed (some wanted) (ok banks) h = elim (Bool-cases (wanted == "")) [
  | inl e ↦ rw e h
  | inr e ↦ rw e (filtered-AreNamed _ banks h)
]
searched-IsNamed none (err e) h = tt
searched-IsNamed (some wanted) (err e) h = tt

-- The list kept, or the fallback, before and after a request of Paystack.
stale-AreNamed : (c : Option Cached) → CacheIsNamed c → AreNamed (stale_or_fallback c)
stale-AreNamed none h = fallback-AreNamed
stale-AreNamed (some c) h = h

fetched-IsNamed :
    (now : ℕ) (s : BanksService) (a : Result (List BankListing))
    → CacheIsNamed s.cached
    → IsNamed a
    → CacheIsNamed (fetched now s a).0.cached × IsNamed (fetched now s a).1
fetched-IsNamed now s (ok banks) h k = (k, k)
fetched-IsNamed now s (err e) h k = (h, tt)

module _ (secret_key : Option String) (fetch : ℕ → BankAnswer) where
  abbrev Keeps : BanksService × Result (List BankListing) → Type 0
  Keeps (s, a) = CacheIsNamed s.cached × IsNamed a

  get_banks-IsNamed :
      (now after : ℕ) (s : BanksService)
      → CacheIsNamed s.cached
      → Keeps (get_banks secret_key fetch now after s)
  unfolding get_banks
  get_banks-IsNamed now after s h = elim (Bool-cases (is_blank secret_key)) [
    | inl e ↦ rw e (h, fallback-AreNamed)
    | inr e ↦ rw e (elim (Bool-cases (is_fresh now s.cached)) [
      | inl f ↦ rw f (h, stale-AreNamed s.cached h)
      | inr f ↦ rw f (
          fetched-IsNamed after s (fetch_from_paystack s.cached (fetch s.fetches)) h
            (fetch_from_paystack-IsNamed s.cached (fetch s.fetches) (stale-AreNamed s.cached h)))
    ])
  ]

  each-IsNamed :
      (rs : List BanksRequest) (s : BanksService)
      → CacheIsNamed s.cached
      → All IsNamed (list_each secret_key fetch rs s).1
  unfolding list_each list_banks
  each-IsNamed [] s h = tt
  each-IsNamed (r ∷ rs) s h =
      let k = get_banks-IsNamed r.now r.after s h in
      (searched-IsNamed r.search _ k.1, each-IsNamed rs _ k.0)

  -- Over all requests of a process, whatever Paystack answers, each bank that is listed has a name
  -- and a code.
  pub list_each-IsNamed :
      (rs : List BanksRequest) → All IsNamed (list_each secret_key fetch rs new_service).1
  list_each-IsNamed rs = each-IsNamed rs new_service tt
