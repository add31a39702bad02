-- ===== src/Loyalty/Seed/Defaults.antt =====
-- apps/loyalty-service/src/config/default-loyalty-config.ts: the default groups, achievements and
-- badges.
use bumpa_achievement_system.Common.{ℕ, String, Option, none, some, List, [], ◌∷◌}
use bumpa_achievement_system.Loyalty.Rules.{
  AchievementRule, gte, count, sum, combination, achievement_set, cons, nil,
}

pub record AchievementGroupSeed : Type 0 where
  pub key : String
  pub name : String
  pub sort_order : ℕ

unfoldable pub default_achievement_groups : List AchievementGroupSeed
default_achievement_groups =
    record { key = "purchases"; name = "Purchases"; sort_order = 1 }
    ∷ record { key = "spend"; name = "Spend"; sort_order = 2 }
    ∷ record { key = "milestones"; name = "Milestones"; sort_order = 3 }
    ∷ []

pub record AchievementSeed : Type 0 where
  pub id : String
  pub name : String
  pub description : String
  pub group_key : String
  pub sort_order : ℕ
  pub rule : AchievementRule
  pub image_url : Option String

pub record BadgeSeed : Type 0 where
  pub id : String
  pub name : String
  pub description : String
  pub sort_order : ℕ
  pub required_achievement_count : ℕ
  pub required_achievement_ids : Option (List String)
  pub reward_amount_kobo : Option ℕ
  pub reward_currency : Option String
  pub image_url : Option String

abbrev first_purchase : AchievementSeed
first_purchase = record {
  id = "ach_first_purchase";
  name = "First Purchase";
  description = "Make your first purchase and start your Bumpa loyalty journey.";
  group_key = "purchases";
  sort_order = 1;
  rule = count gte 1;
  image_url = some "https://placehold.co/512x512/png?text=First+Purchase";
}

abbrev five_purchases : AchievementSeed
five_purchases = record {
  id = "ach_5_purchases";
  name = "5 Purchases";
  description = "Complete 5 purchases on Bumpa.";
  group_key = "purchases";
  sort_order = 2;
  rule = count gte 5;
  image_url = some "https://placehold.co/512x512/png?text=5+Purchases";
}

abbrev ten_purchases : AchievementSeed
ten_purchases = record {
  id = "ach_10_purchases";
  name = "10 Purchases";
  description = "Complete 10 purchases and prove consistent buying activity.";
  group_key = "purchases";
  sort_order = 3;
  rule = count gte 10;
  image_url = some "https://placehold.co/512x512/png?text=10+Purchases";
}

abbrev big_spender : AchievementSeed
big_spender = record {
  id = "ach_big_spender";
  name = "Big Spender";
  description = "Spend at least 100,000 Naira in total purchases.";
  group_key = "spend";
  sort_order = 1;
  rule = sum gte 10000000;
  image_url = some "https://placehold.co/512x512/png?text=Big+Spender";
}

abbrev loyal_shopper : AchievementSeed
loyal_shopper = record {
  id = "ach_loyal_shopper";
  name = "Loyal Shopper";
  description =
      "Complete 5 purchases, spend at least 25,000 Naira, and unlock the key purchase milestones.";
  group_key = "milestones";
  sort_order = 1;
  rule = combination (
      cons (count gte 5) (
        cons (sum gte 2500000)
          (cons (achievement_set ("ach_first_purchase" ∷ "ach_5_purchases" ∷ []) none) nil)));
  image_url = some "https://placehold.co/512x512/png?text=Loyal+Shopper";
}

abbrev power_customer : AchievementSeed
power_customer = record {
  id = "ach_power_customer";
  name = "Power Customer";
  description = "Unlock at least 4 major achievement milestones.";
  group_key = "milestones";
  sort_order = 2;
  rule =
      achievement_set
        ("ach_first_purchase" ∷ "ach_5_purchases" ∷ "ach_10_purchases" ∷ "ach_big_spender"
          ∷ "ach_loyal_shopper" ∷ [])
        (some 4);
  image_url = some "https://placehold.co/512x512/png?text=Power+Customer";
}

unfoldable pub default_achievements : List AchievementSeed
default_achievements =
    first_purchase ∷ five_purchases ∷ ten_purchases ∷ big_spender ∷ loyal_shopper ∷ power_customer
    ∷ []

abbrev beginner : BadgeSeed
beginner = record {
  id = "bdg_beginner";
  name = "Beginner";
  description = "Awarded after the customer makes their first purchase.";
  sort_order = 1;
  required_achievement_count = 1;
  required_achievement_ids = some ("ach_first_purchase" ∷ []);
  reward_amount_kobo = some 30000;
  reward_currency = some "NGN";
  image_url = some "https://placehold.co/512x512/png?text=Beginner";
}

abbrev intermediate : BadgeSeed
intermediate = record {
  id = "bdg_intermediate";
  name = "Intermediate";
  description = "Awarded after the customer completes core purchase loyalty milestones.";
  sort_order = 2;
  required_achievement_count = 3;
  required_achievement_ids =
      some ("ach_first_purchase" ∷ "ach_5_purchases" ∷ "ach_loyal_shopper" ∷ []);
  reward_amount_kobo = some 30000;
  reward_currency = some "NGN";
  image_url = some "https://placehold.co/512x512/png?text=Intermediate";
}

abbrev advanced : BadgeSeed
advanced = record {
  id = "bdg_advanced";
  name = "Advanced";
  description = "Awarded to high-value customers with strong purchase and spend history.";
  sort_order = 3;
  required_achievement_count = 5;
  required_achievement_ids = some (
      "ach_first_purchase" ∷ "ach_5_purchases" ∷ "ach_10_purchases" ∷ "ach_big_spender"
      ∷ "ach_loyal_shopper" ∷ []);
  reward_amount_kobo = some 30000;
  reward_currency = some "NGN";
  image_url = some "https://placehold.co/512x512/png?text=Advanced";
}

abbrev elite : BadgeSeed
elite = record {
  id = "bdg_elite";
  name = "Elite";
  description = "Awarded to top customers who complete every configured loyalty milestone.";
  sort_order = 4;
  required_achievement_count = 6;
  required_achievement_ids = some (
      "ach_first_purchase" ∷ "ach_5_purchases" ∷ "ach_10_purchases" ∷ "ach_big_spender"
      ∷ "ach_loyal_shopper" ∷ "ach_power_customer" ∷ []);
  reward_amount_kobo = some 30000;
  reward_currency = some "NGN";
  image_url = some "https://placehold.co/512x512/png?text=Elite";
}

unfoldable pub default_badges : List BadgeSeed
default_badges = beginner ∷ intermediate ∷ advanced ∷ elite ∷ []
