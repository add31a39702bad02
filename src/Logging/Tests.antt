-- ===== src/Logging/Tests.antt =====
-- A request line on concrete bodies.
use bumpa_achievement_system.Common.{◌≡◌, refl, String}
use bumpa_achievement_system.Json.{Json, string, object, end, field}
use bumpa_achievement_system.Logging.{request_line, redact}
use bumpa_achievement_system.Logging.Redacted.{
  Agree, same, objects, secret, shared, no_more, request_line_hides,
}

-- The details of an account, under the user of a purchase.
abbrev purchase_of : String → Json
purchase_of account = object (
    field "user"
      (object (field "name" (string "Ada") (field "bankAccountNumber" (string account) end))) end)

redacted_purchase : redact (purchase_of "0123456789") ≡ purchase_of "[redacted]"
unfolding redact
redacted_purchase = refl

-- It stands for JSON.stringify.
abbrev shown : Json → String
shown body = "{}"

agreement : Agree (purchase_of "0123456789") (purchase_of "9876543210")
agreement = objects (shared (objects (shared same (secret refl no_more))) no_more)

request_line_hides_example :
    request_line shown "POST" "/purchases" (purchase_of "0123456789")
    ≡ request_line shown "POST" "/purchases" (purchase_of "9876543210")
request_line_hides_example =
    request_line_hides shown "POST" "/purchases" (purchase_of "0123456789")
      (purchase_of "9876543210") agreement
