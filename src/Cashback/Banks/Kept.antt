-- ===== src/Cashback/Banks/Kept.antt =====
-- How long a list of banks is kept, and when Paystack is asked.
use bumpa_achievement_system.Common.{
  ℕ, ◌+◌, ◌≡◌, ◌<◌, refl, true, false, some, List, [], ◌∷◌, map, Option, String, All, arith,
}
use bumpa_achievement_system.Cashback.Payments.Provider.{ok, is_blank}
use bumpa_achievement_system.Cashback.Banks.{
  BankListing, cache_ttl_ms, BankAnswer, Cached, BanksService, fetch_from_paystack, is_fresh,
  searched, BanksRequest, get_banks, list_banks, list_each,
}

-- Requests that read the clock before the list of that time expires.
abbrev pub Within : ℕ → List BanksRequest → Type 0
Within fetched_at rs = All (λ (q : BanksRequest). q.now < fetched_at + cache_ttl_ms) rs

fresh_within :
    (now fetched_at : ℕ) (banks : List BankListing)
    → now < fetched_at + cache_ttl_ms
    → is_fresh now (some (record { banks = banks; fetched_at = fetched_at })) ≡ true
fresh_within now fetched_at banks h = ground arith

module _ (secret_key : Option String) (fetch : ℕ → BankAnswer)
    (has_key : is_blank secret_key ≡ false) where
  list_each_kept :
      (rs : List BanksRequest) (c : Cached) (n : ℕ)
      → Within c.fetched_at rs
      → list_each secret_key fetch rs (record { cached = some c; fetches = n }) ≡ (
        record { cached = some c; fetches = n },
        map (λ (q : BanksRequest). ok (searched q.search c.banks)) rs,
      )
  unfolding list_each list_banks get_banks
  list_each_kept [] c n h = refl
  list_each_kept (q ∷ rs) c n (h, hs) =
      simp (has_key, fresh_within q.now c.fetched_at c.banks h, list_each_kept rs c n hs)

  -- A request that finds no fresh list, and whose request of Paystack does not throw, answers what
  -- it fetched; every request of the next twelve hours answers from the same list, without a
  -- request of Paystack. The list may be the old one or the fallback, where Paystack was
  -- unreachable: it too is kept for twelve hours. There is a secret key.
  pub list_each_caches :
      (r : BanksRequest) (rs : List BanksRequest) (s : BanksService) (banks : List BankListing)
      → is_fresh r.now s.cached ≡ false
      → fetch_from_paystack s.cached (fetch s.fetches) ≡ ok banks
      → Within r.after rs
      → list_each secret_key fetch (r ∷ rs) s ≡ (
        record {
          cached = some (record { banks = banks; fetched_at = r.after });
          fetches = s.fetches + 1;
        },
        map (λ (q : BanksRequest). ok (searched q.search banks)) (r ∷ rs),
      )
  unfolding list_each list_banks get_banks
  list_each_caches r rs s banks stale answers h = simp (
    has_key,
    stale,
    answers,
    list_each_kept rs (record { banks = banks; fetched_at = r.after }) (s.fetches + 1) h,
  )
