-- ===== src/Cashback/Tests/Banks.antt =====
-- A list of banks over several requests.
use bumpa_achievement_system.Common.{◌≡◌, refl, ℕ, zero, suc, true, none, some, [], ◌∷◌, map, arith}
use bumpa_achievement_system.Json.{boolean, string, array, object, cons, nil, field, end}
use bumpa_achievement_system.Cashback.Payments.Provider.{ok}
use bumpa_achievement_system.Cashback.Banks.{
  BankAnswer, unreachable, replied, nigerian_banks_fallback, new_service, searched, BanksRequest,
  list_each, fetch_from_paystack,
}
use bumpa_achievement_system.Cashback.Banks.Kept.{list_each_caches}

-- Paystack is unreachable once, and answers afterwards.
abbrev answers : ℕ → BankAnswer
answers zero = unreachable
answers (suc n) = replied true 200 (
    object (
      field "status" (boolean true) (
        field "data"
          (array (
            cons (object (field "name" (string "Zenith Bank") (field "code" (string "057") end)))
              (cons (object (field "name" (string "Nameless") end)) nil)))
          end)))

abbrev first_request : BanksRequest
first_request = record { search = some " Zenith "; now = 5; after = 7 }

abbrev second_request : BanksRequest
second_request = record { search = none; now = 43200006; after = 43200006 }

first_request_finds :
    (list_each (some "sk") answers (first_request ∷ []) (record new_service { fetches = 1 })).1
    ≡ ok (record { name = "Zenith Bank"; code = "057" } ∷ []) ∷ []
unfolding list_each
first_request_finds = refl

list_each_caches_example :
    list_each (some "sk") answers (first_request ∷ second_request ∷ []) new_service ≡ (
      record {
        cached = some (record { banks = nigerian_banks_fallback; fetched_at = 7 });
        fetches = 1;
      },
      map
          (λ (q : BanksRequest). ok (searched q.search nigerian_banks_fallback))
          (first_request ∷ second_request ∷ []),
    )
unfolding fetch_from_paystack
list_each_caches_example =
    list_each_caches (some "sk") answers refl first_request (second_request ∷ []) new_service
      nigerian_banks_fallback refl refl (omega arith, tt)
