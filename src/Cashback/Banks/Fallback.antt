-- ===== src/Cashback/Banks/Fallback.antt =====
-- apps/cashback-service/src/payments/nigerian-banks.fallback.ts.
use bumpa_achievement_system.Common.{String, List, [], ◌∷◌}

pub record BankListing : Type 0 where
  pub name : String
  pub code : String

abbrev bank : String → String → BankListing
bank name code = record { name = name; code = code }

-- NIGERIAN_BANKS_FALLBACK
abbrev pub nigerian_banks_fallback : List BankListing
nigerian_banks_fallback =
    bank "Access Bank" "044"
    ∷ bank "Citibank Nigeria" "023"
    ∷ bank "Ecobank Nigeria" "050"
    ∷ bank "Fidelity Bank" "070"
    ∷ bank "First Bank of Nigeria" "011"
    ∷ bank "First City Monument Bank" "214"
    ∷ bank "Globus Bank" "00103"
    ∷ bank "Guaranty Trust Bank" "058"
    ∷ bank "Heritage Bank" "030"
    ∷ bank "Keystone Bank" "082"
    ∷ bank "Kuda Bank" "50211"
    ∷ bank "Moniepoint MFB" "50515"
    ∷ bank "Opay" "999992"
    ∷ bank "Palmpay" "999991"
    ∷ bank "Polaris Bank" "076"
    ∷ bank "Providus Bank" "101"
    ∷ bank "Stanbic IBTC Bank" "221"
    ∷ bank "Standard Chartered Bank" "068"
    ∷ bank "Sterling Bank" "232"
    ∷ bank "Suntrust Bank" "100"
    ∷ bank "Union Bank of Nigeria" "032"
    ∷ bank "United Bank For Africa" "033"
    ∷ bank "Unity Bank" "215"
    ∷ bank "Wema Bank" "035"
    ∷ bank "Zenith Bank" "057"
    ∷ []
