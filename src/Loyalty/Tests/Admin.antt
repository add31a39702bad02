-- ===== src/Loyalty/Tests/Admin.antt =====
-- Requests of the admin API on concrete tables.
use bumpa_achievement_system.Common.{◌≡◌, refl, Bool, true, none, some, List, [], ◌∷◌}
use bumpa_achievement_system.Loyalty.Rules.{gte, count, achievement_set}
use bumpa_achievement_system.Loyalty.Unlock.{AchievementConfig}
use bumpa_achievement_system.Loyalty.Badges.{BadgeConfig}
use bumpa_achievement_system.Loyalty.Admin.{
  done, UpdateAchievementConfigDto, create_achievement, collect_achievement_set_ids,
  achievements_exist,
}
use bumpa_achievement_system.Loyalty.Admin.Positions.{AreApart}
use bumpa_achievement_system.Loyalty.Admin.Changes.{
  AdminRequest, post_badge, post_group, patch_achievement, patch_group, handle_all,
}
use bumpa_achievement_system.Loyalty.Admin.Placed.{IsInOrder}
use bumpa_achievement_system.Loyalty.Admin.InOrder.{handle_all-IsInOrder}
use bumpa_achievement_system.Loyalty.Tests.AdminTables.{Tables, database}

abbrev first : AchievementConfig
first = record {
  id = "first";
  name = "First";
  description = "";
  group_key = "purchases";
  sort_order = 1;
  rule = count gte 1;
  image_url = none;
  active = true;
}

abbrev second : AchievementConfig
second = record first {
  id = "second";
  name = "Second";
  sort_order = 2;
  rule = achievement_set ("first" ∷ []) none;
}

abbrev tables : Tables
tables = record {
  groups = record { key = "purchases"; name = "Purchases"; sort_order = 1 } ∷ [];
  achievements = first ∷ second ∷ [];
  badges = [];
  once = (refl, (refl, tt));
  badges_once = tt;
  groups_once = (refl, tt);
}

abbrev between : AchievementConfig
between = record second { id = "between"; name = "Between" }

between_done : (create_achievement database true between tables).1 ≡ done
unfolding create_achievement achievements_exist collect_achievement_set_ids
between_done = refl

tables-AreApart : AreApart tables.achievements
tables-AreApart = ((refl, tt), (tt, tt))

abbrev to_front : UpdateAchievementConfigDto
to_front = record {
  name = none;
  description = none;
  group_key = none;
  sort_order = some 1;
  rule = none;
  image_url = none;
  active = none;
}

abbrev badge : BadgeConfig
badge = record {
  id = "bronze";
  name = "Bronze";
  description = "";
  sort_order = 1;
  required_achievement_count = 1;
  required_achievement_ids = "first" ∷ [];
  reward_amount_kobo = 30000;
  reward_currency = "NGN";
  image_url = none;
  active = true;
}

abbrev requests : List (Bool × AdminRequest)
requests =
    (true, post_badge badge)
    ∷ (true, post_badge (record badge { id = "silver" }))
    ∷ (true, post_group "spend" "Spend" (some 1))
    ∷ (true, patch_achievement "second" to_front)
    ∷ (true, patch_group "spend" (record { name = none; sort_order = some 7 }))
    ∷ []

handle_all-IsInOrder_example : IsInOrder database (handle_all database requests tables)
handle_all-IsInOrder_example =
    handle_all-IsInOrder database requests tables
      (record { in_groups = tables-AreApart; of_badges = tt; of_groups = (tt, tt) })
