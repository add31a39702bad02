-- ===== src/Gateway/Routes.antt =====
-- apps/api-gateway/src/gateway.controller.ts: the routes of the gateway and what each forwards. The
-- checks of bodies and queries are those of a library: `accepts` is its answer.
pub mod Services
pub mod Reaches
use bumpa_achievement_system.Common.{
  String, Bool, true, false, not, ◌&&◌, Option, none, some, List, [], ◌∷◌, ◌==◌, concat_text,
  if◌then◌else◌,
}
use bumpa_achievement_system.Json.{Json, undefined, string}
use bumpa_achievement_system.Gateway.Client.{Method, get, post, patch}
use bumpa_achievement_system.Gateway.Access.{can_activate, is_safe_id}

pub data MicroserviceName : Type 0 where
  purchase loyalty cashback : MicroserviceName

-- The routes, @Post('purchases') and so on, with the identifier of the path, and the query or the body.
pub data Endpoint : Type 0 where
  post_purchases : Json → Endpoint
  get_banks : Json → Endpoint
  get_user_achievements : String → Endpoint
  get_admin_achievement_groups : Endpoint
  post_admin_achievement_groups : Json → Endpoint
  patch_admin_achievement_groups : String → Json → Endpoint
  get_admin_achievements : Json → Endpoint
  get_admin_catalog : Endpoint
  post_admin_achievements : Json → Endpoint
  patch_admin_achievements : String → Json → Endpoint
  get_admin_badges : Json → Endpoint
  post_admin_badges : Json → Endpoint
  patch_admin_badges : String → Json → Endpoint
  get_cashbacks : Json → Endpoint
  post_cashbacks_retry : String → Json → Endpoint
  post_webhooks_paystack : Option String → Endpoint

pub record GatewayRequest : Type 0 where
  pub endpoint : Endpoint
  pub api_key : Option String
  pub idempotency_key : Option String
  pub paystack_signature : Option String
  pub content_type : Option String
  pub correlation_id : String

pub record ForwardRequest : Type 0 where
  pub service : MicroserviceName
  pub method : Method
  pub path : String
  pub body : Json
  pub query : Json
  pub content_type : String
  pub headers : List (String × String)
  pub correlation_id : String

-- optionalHeader: the empty text is no header.
abbrev pub optional_header : String → Option String → List (String × String)
optional_header name none = []
optional_header name (some v) = if v == "" then [] else (name, v) ∷ []

-- @UseGuards(ApiKeyGuard)
abbrev pub is_guarded : Endpoint → Bool
is_guarded (post_purchases body) = false
is_guarded (get_banks query) = false
is_guarded (get_user_achievements user_id) = false
is_guarded (post_webhooks_paystack body) = false
is_guarded get_admin_achievement_groups = true
is_guarded (post_admin_achievement_groups body) = true
is_guarded (patch_admin_achievement_groups key body) = true
is_guarded (get_admin_achievements query) = true
is_guarded get_admin_catalog = true
is_guarded (post_admin_achievements body) = true
is_guarded (patch_admin_achievements id body) = true
is_guarded (get_admin_badges query) = true
is_guarded (post_admin_badges body) = true
is_guarded (patch_admin_badges id body) = true
is_guarded (get_cashbacks query) = true
is_guarded (post_cashbacks_retry id body) = true

-- The identifier that a …ParamDto checks.
abbrev pub id_of : Endpoint → Option String
id_of (get_user_achievements user_id) = some user_id
id_of (patch_admin_achievement_groups key body) = some key
id_of (patch_admin_achievements id body) = some id
id_of (patch_admin_badges id body) = some id
id_of (post_cashbacks_retry id body) = some id
id_of (post_purchases body) = none
id_of (get_banks query) = none
id_of get_admin_achievement_groups = none
id_of (post_admin_achievement_groups body) = none
id_of (get_admin_achievements query) = none
id_of get_admin_catalog = none
id_of (post_admin_achievements body) = none
id_of (get_admin_badges query) = none
id_of (post_admin_badges body) = none
id_of (get_cashbacks query) = none
id_of (post_webhooks_paystack body) = none

-- A request without a body, a query and headers.
abbrev to_service : MicroserviceName → Method → String → GatewayRequest → ForwardRequest
to_service service method path r = record {
  service = service;
  method = method;
  path = path;
  body = undefined;
  query = undefined;
  content_type = "application/json";
  headers = [];
  correlation_id = r.correlation_id;
}

unfoldable pub create_purchase : Json → GatewayRequest → ForwardRequest
create_purchase body r = record (to_service purchase post "/purchases" r) {
  body = body;
  headers = optional_header "x-idempotency-key" r.idempotency_key;
}

unfoldable pub list_banks : Json → GatewayRequest → ForwardRequest
list_banks query r = record (to_service cashback get "/banks" r) { query = query }

unfoldable pub get_achievements : String → GatewayRequest → ForwardRequest
get_achievements user_id r =
    to_service loyalty get (concat_text "/internal/users/" (concat_text user_id "/achievements")) r

unfoldable pub get_achievement_groups : GatewayRequest → ForwardRequest
get_achievement_groups r = to_service loyalty get "/admin/achievement-groups" r

unfoldable pub create_achievement_group : Json → GatewayRequest → ForwardRequest
create_achievement_group body r = record (to_service loyalty post "/admin/achievement-groups" r) {
  body = body;
}

unfoldable pub update_achievement_group : String → Json → GatewayRequest → ForwardRequest
update_achievement_group key body r =
    record (to_service loyalty patch (concat_text "/admin/achievement-groups/" key) r) {
      body = body;
    }

unfoldable pub get_achievement_configs : Json → GatewayRequest → ForwardRequest
get_achievement_configs query r = record (to_service loyalty get "/admin/achievements" r) {
  query = query;
}

unfoldable pub get_loyalty_catalog : GatewayRequest → ForwardRequest
get_loyalty_catalog r = to_service loyalty get "/admin/catalog" r

unfoldable pub create_achievement_config : Json → GatewayRequest → ForwardRequest
create_achievement_config body r = record (to_service loyalty post "/admin/achievements" r) {
  body = body;
}

unfoldable pub update_achievement_config : String → Json → GatewayRequest → ForwardRequest
update_achievement_config id body r =
    record (to_service loyalty patch (concat_text "/admin/achievements/" id) r) { body = body }

unfoldable pub get_badge_configs : Json → GatewayRequest → ForwardRequest
get_badge_configs query r = record (to_service loyalty get "/admin/badges" r) { query = query }

unfoldable pub create_badge_config : Json → GatewayRequest → ForwardRequest
create_badge_config body r = record (to_service loyalty post "/admin/badges" r) { body = body }

unfoldable pub update_badge_config : String → Json → GatewayRequest → ForwardRequest
update_badge_config id body r =
    record (to_service loyalty patch (concat_text "/admin/badges/" id) r) { body = body }

unfoldable pub list_cashbacks : Json → GatewayRequest → ForwardRequest
list_cashbacks query r = record (to_service cashback get "/cashbacks" r) { query = query }

unfoldable pub retry_cashback : String → Json → GatewayRequest → ForwardRequest
retry_cashback id body r =
    record (to_service cashback post (concat_text "/cashbacks/" (concat_text id "/retry")) r) {
      body = body;
    }

abbrev or_text : String → Option String → String
or_text d none = d
or_text d (some s) = s

-- The raw bytes are sent on as they are, by forwardRaw.
unfoldable pub handle_paystack_webhook : Option String → GatewayRequest → ForwardRequest
handle_paystack_webhook raw r = record (to_service cashback post "/webhooks/paystack" r) {
  body = string (or_text "" raw);
  content_type = or_text "application/json" r.content_type;
  headers = optional_header "x-paystack-signature" r.paystack_signature;
}

unfoldable pub forward_of : Endpoint → GatewayRequest → ForwardRequest
unfolding create_purchase list_banks get_achievements get_achievement_groups
    create_achievement_group update_achievement_group get_achievement_configs get_loyalty_catalog
    create_achievement_config update_achievement_config get_badge_configs create_badge_config
    update_badge_config list_cashbacks retry_cashback handle_paystack_webhook
forward_of (post_purchases body) r = create_purchase body r
forward_of (get_banks query) r = list_banks query r
forward_of (get_user_achievements user_id) r = get_achievements user_id r
forward_of get_admin_achievement_groups r = get_achievement_groups r
forward_of (post_admin_achievement_groups body) r = create_achievement_group body r
forward_of (patch_admin_achievement_groups key body) r = update_achievement_group key body r
forward_of (get_admin_achievements query) r = get_achievement_configs query r
forward_of get_admin_catalog r = get_loyalty_catalog r
forward_of (post_admin_achievements body) r = create_achievement_config body r
forward_of (patch_admin_achievements id body) r = update_achievement_config id body r
forward_of (get_admin_badges query) r = get_badge_configs query r
forward_of (post_admin_badges body) r = create_badge_config body r
forward_of (patch_admin_badges id body) r = update_badge_config id body r
forward_of (get_cashbacks query) r = list_cashbacks query r
forward_of (post_cashbacks_retry id body) r = retry_cashback id body r
forward_of (post_webhooks_paystack raw) r = handle_paystack_webhook raw r

abbrev pub is_safe : Option String → Bool
is_safe none = true
is_safe (some id) = is_safe_id id

pub data Handled : Type 0 where
  unauthorized bad_request : Handled
  forwards : ForwardRequest → Handled

-- The guard comes before the checks of the parameters, and these before the handler.
unfoldable pub handle : Option String → (Endpoint → Bool) → GatewayRequest → Handled
unfolding can_activate forward_of
handle admin_api_key accepts r =
    if is_guarded r.endpoint && not (can_activate admin_api_key r.api_key)
    then unauthorized
    else if not (is_safe (id_of r.endpoint) && accepts r.endpoint)
    then bad_request
    else forwards (forward_of r.endpoint r)
