-- ===== src/Gateway/Correlation.antt =====
-- The headers of the requests that microservice-http-client.service.ts sends, and the correlation
-- identifier that travels in them.
pub mod Kept
use bumpa_achievement_system.Common.{
  String, Option, none, some, List, [], ◌∷◌, if◌then◌else◌, ◌==◌, ◌++◌,
}
use bumpa_achievement_system.Gateway.Routes.{ForwardRequest}

-- The object of headers in `forward` and in `forwardRaw`, its properties in their order.
abbrev pub headers_of : ForwardRequest → List (String × String)
headers_of r =
    ("content-type", r.content_type)
      ∷ (if r.correlation_id == "" then [] else ("x-correlation-id", r.correlation_id) ∷ [])
    ++ r.headers

-- The value of a property: a later one of the name replaces an earlier one.
abbrev pub or_earlier : Option String → Option String → Option String
or_earlier none earlier = earlier
or_earlier (some later) earlier = some later

abbrev pub header : String → List (String × String) → Option String
header name [] = none
header name ((k, v) ∷ hs) = or_earlier (header name hs) (if k == name then some v else none)
