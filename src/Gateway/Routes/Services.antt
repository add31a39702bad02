-- ===== src/Gateway/Routes/Services.antt =====
-- The routes of the services behind the gateway: purchase.controller.ts, loyalty.controller.ts,
-- admin-config.controller.ts, cashback.controller.ts, banks.controller.ts and
-- paystack-webhook.controller.ts. A path is compared segment by segment.
use bumpa_achievement_system.Common.{
  ℕ, String, Bool, true, false, ◌&&◌, Option, none, some, List, [], ◌∷◌, nat_eq, codes,
  if◌then◌else◌,
}
use bumpa_achievement_system.Gateway.Client.{Method, get, post, patch}
use bumpa_achievement_system.Gateway.Routes.{MicroserviceName, purchase, loyalty, cashback}

abbrev push : ℕ → List (List ℕ) → List (List ℕ)
push c [] = (c ∷ []) ∷ []
push c (s ∷ ss) = (c ∷ s) ∷ ss

-- The text between the slashes.
unfoldable pub segments : List ℕ → List (List ℕ)
segments [] = [] ∷ []
segments (c ∷ cs) = let rest = segments cs in if nat_eq c b'/' then [] ∷ rest else push c rest

abbrev pub codes_eq : List ℕ → List ℕ → Bool
codes_eq [] [] = true
codes_eq [] (d ∷ ds) = false
codes_eq (c ∷ cs) [] = false
codes_eq (c ∷ cs) (d ∷ ds) = nat_eq c d && codes_eq cs ds

abbrev is : List ℕ → String → Bool
is segment name = codes_eq segment (codes name)

-- The methods of the controllers, with the identifier of the path.
pub data ServiceMethod : Type 0 where
  create : ServiceMethod
  get_achievement_state : List ℕ → ServiceMethod
  get_catalog list_groups create_group : ServiceMethod
  update_group : List ℕ → ServiceMethod
  list_achievements create_achievement : ServiceMethod
  update_achievement : List ℕ → ServiceMethod
  list_badges create_badge : ServiceMethod
  update_badge : List ℕ → ServiceMethod
  list_banks list : ServiceMethod
  retry : List ℕ → ServiceMethod
  handle_webhook : ServiceMethod

unfoldable pub purchase_route : Method → List (List ℕ) → Option ServiceMethod
purchase_route post (root ∷ a ∷ []) = if is a "purchases" then some create else none
purchase_route method path = none

-- The admin routes of two segments, and of three.
unfoldable pub admin_route : Method → List ℕ → Option ServiceMethod
admin_route get a =
    if is a "catalog"
    then some get_catalog
    else if is a "achievement-groups"
    then some list_groups
    else if is a "achievements"
    then some list_achievements
    else if is a "badges"
    then some list_badges
    else none
admin_route post a =
    if is a "achievement-groups"
    then some create_group
    else if is a "achievements"
    then some create_achievement
    else if is a "badges"
    then some create_badge
    else none
admin_route patch a = none

unfoldable pub admin_item_route : Method → List ℕ → List ℕ → Option ServiceMethod
admin_item_route patch a id =
    if is a "achievement-groups"
    then some (update_group id)
    else if is a "achievements"
    then some (update_achievement id)
    else if is a "badges"
    then some (update_badge id)
    else none
admin_item_route get a id = none
admin_item_route post a id = none

unfoldable pub user_route : Method → List ℕ → Option ServiceMethod
user_route get id = some (get_achievement_state id)
user_route post id = none
user_route patch id = none

unfoldable pub loyalty_route : Method → List (List ℕ) → Option ServiceMethod
unfolding admin_route admin_item_route user_route
loyalty_route method (root ∷ a ∷ b ∷ []) = if is a "admin" then admin_route method b else none
loyalty_route method (root ∷ a ∷ b ∷ id ∷ []) =
    if is a "admin" then admin_item_route method b id else none
loyalty_route method (root ∷ a ∷ b ∷ id ∷ c ∷ []) =
    if is a "internal" && (is b "users" && is c "achievements") then user_route method id else none
loyalty_route method path = none

unfoldable pub cashback_route : Method → List (List ℕ) → Option ServiceMethod
cashback_route get (root ∷ a ∷ []) =
    if is a "banks" then some list_banks else if is a "cashbacks" then some list else none
cashback_route post (root ∷ a ∷ b ∷ []) =
    if is a "webhooks" && is b "paystack" then some handle_webhook else none
cashback_route post (root ∷ a ∷ id ∷ b ∷ []) =
    if is a "cashbacks" && is b "retry" then some (retry id) else none
cashback_route method path = none

unfoldable pub service_route : MicroserviceName → Method → List (List ℕ) → Option ServiceMethod
unfolding purchase_route loyalty_route cashback_route
service_route purchase method path = purchase_route method path
service_route loyalty method path = loyalty_route method path
service_route cashback method path = cashback_route method path
