-- ===== src/Logging.antt =====
-- packages/logger-sdk/src: the middleware that logs a request with its body
-- (request-logging.middleware.ts), and the one that gives it its correlation identifier
-- (correlation-id.middleware.ts). `stringify` is JSON.stringify.
pub mod Redacted
mod Tests
use bumpa_achievement_system.Common.{
  String, Bool, Option, none, some, List, [], ◌∷◌, has, if◌then◌else◌, ◌==◌, concat_text,
}
use bumpa_achievement_system.Json.{
  Json, undefined, null, boolean, number, string, array, object, Items, nil, cons, Fields, end,
  field,
}

-- REDACTED_KEYS
abbrev pub redacted_keys : List String
redacted_keys =
    "bankAccountNumber" ∷ "bankCode" ∷ "password" ∷ "secretKey" ∷ "authorization" ∷ "x-api-key" ∷ []

unfoldable mutual
  pub redact : Json → Json
  redact (array l) = array (redact_items l)
  redact (object fs) = object (redact_fields fs)
  redact undefined = undefined
  redact null = null
  redact (boolean b) = boolean b
  redact (number n) = number n
  redact (string s) = string s

  pub redact_items : Items → Items
  redact_items nil = nil
  redact_items (cons x l) = cons (redact x) (redact_items l)

  pub redact_fields : Fields → Fields
  redact_fields end = end
  redact_fields (field k v fs) =
      let rest = redact_fields fs in
      let nested = redact v in
      field k (if has redacted_keys k then string "[redacted]" else nested) rest

module _ (stringify : Json → String) where
  abbrev shown : Json → String
  shown body = concat_text " " (stringify body)

  -- formatBody: a body that is no object, or has no properties, is not shown.
  unfoldable pub format_body : Json → String
  unfolding redact
  format_body undefined = ""
  format_body null = ""
  format_body (boolean b) = ""
  format_body (number n) = ""
  format_body (string s) = ""
  format_body (array nil) = ""
  format_body (array (cons x l)) = shown (redact (array (cons x l)))
  format_body (object end) = ""
  format_body (object (field k v fs)) = shown (redact (object (field k v fs)))

  -- The line that `use` logs for a request.
  unfoldable pub request_line : (method original_url : String) → Json → String
  unfolding format_body
  request_line method original_url body =
      concat_text "--> "
        (concat_text method (concat_text " " (concat_text original_url (format_body body))))

-- CorrelationIdMiddleware: the identifier of the request, which the response carries too. `random`
-- are the drawn digits.
unfoldable pub correlation_id_of : (random : String) → Option String → String
correlation_id_of random none = concat_text "corr_" random
correlation_id_of random (some incoming) =
    if incoming == "" then concat_text "corr_" random else incoming
