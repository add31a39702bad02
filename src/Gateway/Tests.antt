-- ===== src/Gateway/Tests.antt =====
-- Requests to the gateway on concrete data.
use bumpa_achievement_system.Common.{
  ◌⊎◌, ℕ, ◌+◌, ◌-◌, ◌≡◌, ◌≢◌, ◌≤◌, ◌<◌, refl, String, true, false, none, some, codes, if◌then◌else◌,
  nat_eq,
}
use bumpa_achievement_system.Json.{Json, string, object, number, end, field}
use bumpa_achievement_system.Gateway.Client.{
  get, is_get, Answer, refused, no_response, transient_error, status_of, Ended, forward,
}
use bumpa_achievement_system.Gateway.Client.Ends.{outcome, forward_ends}
use bumpa_achievement_system.Gateway.Routes.{
  is_guarded, patch_admin_badges, GatewayRequest, forward_of, handle, forwards,
}
use bumpa_achievement_system.Gateway.Routes.Services.{segments, service_route}
use bumpa_achievement_system.Gateway.Routes.Reaches.{meant, handle_reaches}
use bumpa_achievement_system.Logging.{correlation_id_of}
use bumpa_achievement_system.Gateway.Correlation.{headers_of, header}
use bumpa_achievement_system.Gateway.Correlation.Kept.{correlation_id_kept}
use bumpa_achievement_system.Gateway.Errors.Passed.{Relays, reply, forward-Relays}

abbrev text : Json → String
text d = "1"

-- The first request finds no service, the second is refused.
abbrev answers : ℕ → Answer
answers n =
    if nat_eq n 0
    then no_response
    else refused 404 (object (field "message" (string "Not found") end))

forward_ends_example :
    (e : Ended text) × (forward text get answers ≡ some e)
    × (1 ≤ e.requests)
    × (e.requests ≤ 3)
    × (is_get get ≡ false → e.requests ≡ 1)
    × (e.result ≡ outcome text (answers (e.requests - 1)))
    × ((n : ℕ) → n + 1 < e.requests → transient_error (status_of (answers n)) ≡ true)
forward_ends_example = forward_ends text get answers

forward-Relays_example :
    (e : Ended text) × (forward text get answers ≡ some e)
    × Relays text 200 "now" "/banks"
        (answers (e.requests - 1))
        (reply text 200 "now" "/banks" e.result)
forward-Relays_example = forward-Relays text 200 "now" "/banks" get answers

abbrev rename : GatewayRequest
rename = record {
  endpoint = patch_admin_badges "bdg_elite" (object (field "name" (string "Elite") end));
  api_key = some "secret";
  idempotency_key = none;
  paystack_signature = none;
  content_type = none;
  correlation_id = "c1";
}

rename-forwards :
    handle (some "secret") (λ e. true) rename ≡ forwards (forward_of rename.endpoint rename)
unfolding handle
rename-forwards = refl

handle_reaches_example :
    let f = forward_of rename.endpoint rename in
    (service_route f.service f.method (segments (codes f.path)) ≡ some (meant rename.endpoint))
    × ((is_guarded rename.endpoint ≡ false)
        ⊎ ((k : String) × (some "secret" ≡ some k) × (rename.api_key ≡ some k) × (k ≢ "")))
handle_reaches_example =
    handle_reaches (some "secret") (λ e. true) rename (forward_of rename.endpoint rename)
      rename-forwards

abbrev listing : Json
listing =
    object
      (field "message" (string "Banks") (field "meta" (object (field "total" (number 2) end)) end))

correlation_id_kept_example :
    correlation_id_of "0a1b2c"
      (header "x-correlation-id" (headers_of (forward_of rename.endpoint rename)))
    ≡ rename.correlation_id
unfolding correlation_id_of
correlation_id_kept_example =
    correlation_id_kept "d3e4f5" "0a1b2c" (some "c1") (some "secret") (λ e. true) rename
      (forward_of rename.endpoint rename) given rename-forwards
  where
    given : rename.correlation_id ≡ correlation_id_of "d3e4f5" (some "c1")
    given = refl
