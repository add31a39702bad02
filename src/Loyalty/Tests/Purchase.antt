-- ===== src/Loyalty/Tests/Purchase.antt =====
-- Deliveries of a purchase to the loyalty service, on concrete tables.
use bumpa_achievement_system.Common.{◌≡◌, refl, true, false, none, [], ◌∷◌, any, if◌then◌else◌}
use bumpa_achievement_system.Outbox.Tests.{options, down, clock}
use bumpa_achievement_system.Outbox.Tests.Rows.{repository, empty}
use bumpa_achievement_system.Loyalty.Service.{LoyaltyState}
use bumpa_achievement_system.Loyalty.Service.Once.{handle, deliveries, deliveries_once}
use bumpa_achievement_system.Loyalty.Tests.{env, purchase, configs, badges}
use bumpa_achievement_system.Loyalty.Tests.Tables.{database}

abbrev start : LoyaltyState database repository
start = record {
  tables = record {
    events = [];
    stats = λ u. none;
    achievements = configs;
    unlocked = [];
    badges = badges;
    awarded = [];
    users = [];
  };
  outbox = record { rows = empty; sent = []; calls = 0 };
  drawn = 0;
}

deliveries_once_example :
    deliveries database repository options down clock env purchase (false ∷ true ∷ true ∷ []) start
    ≡ (if any (λ b. b) (false ∷ true ∷ true ∷ [])
        then (handle database repository options down clock env true purchase start).0
        else start)
deliveries_once_example =
    deliveries_once database repository options down clock env purchase (false ∷ true ∷ true ∷ [])
      start refl
