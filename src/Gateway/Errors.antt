-- ===== src/Gateway/Errors.antt =====
-- apps/api-gateway/src/common/http-exception.filter.ts: what an error becomes.
pub mod Passed
use bumpa_achievement_system.Common.{
  ℕ, String, Bool, Option, none, some, List, [], ◌∷◌, nat_eq, concat_text, if◌then◌else◌,
}
use bumpa_achievement_system.Json.{
  Json, undefined, null, boolean, number, string, array, object, Items, nil, cons, Fields, end,
  field, get, or_else,
}
use bumpa_achievement_system.Gateway.Client.{HttpException}

-- An exception of Nest, or another error with its message.
pub data Exception : Type 0 where
  http : HttpException → Exception
  other : String → Exception

pub record ApiErrorResponse : Type 0 where
  pub status_code : ℕ
  pub error : Json
  pub error_code : Json
  pub message : Json
  pub details : Json
  pub errors : Json
  pub meta_data : Json
  pub path : String
  pub timestamp : String

-- `body?.name` of a response: a text, null and undefined have no body.
unfoldable pub body_field : String → Json → Json
unfolding get
body_field name (object fs) = get name fs
body_field name undefined = undefined
body_field name null = undefined
body_field name (boolean b) = undefined
body_field name (number n) = undefined
body_field name (string s) = undefined
body_field name (array l) = undefined

-- getDefaultError
abbrev pub get_default_error : ℕ → String
get_default_error status_code =
    if nat_eq status_code 500 then "InternalServerError" else "HttpException"

-- `text` is JavaScript's String(value).
module _ (text : Json → String) where
  -- messages.join('; ')
  unfoldable pub join : Items → String
  join nil = ""
  join (cons x nil) = text x
  join (cons x (cons y l)) = concat_text (text x) (concat_text "; " (join (cons y l)))

  abbrev pub joined : Json → Json → Json
  joined (array l) rest = string (join l)
  joined undefined rest = rest
  joined null rest = rest
  joined (boolean b) rest = boolean b
  joined (number n) rest = number n
  joined (string s) rest = string s
  joined (object fs) rest = object fs

  -- extractMessage
  unfoldable pub extract_message : Json → Json
  unfolding body_field join
  extract_message (string s) = string s
  extract_message (object fs) =
      joined (body_field "message" (object fs))
        (or_else (body_field "error" (object fs)) (string "Request failed"))
  extract_message undefined = string "Request failed"
  extract_message null = string "Request failed"
  extract_message (boolean b) = string "Request failed"
  extract_message (number n) = string "Request failed"
  extract_message (array l) = string "Request failed"

  -- buildErrorBody
  unfoldable pub build_error_body : ℕ → Json → String → String → ApiErrorResponse
  unfolding extract_message
  build_error_body status_code response path timestamp = record {
    status_code = status_code;
    error = or_else (body_field "error" response) (string (get_default_error status_code));
    error_code = body_field "errorCode" response;
    message = extract_message response;
    details = body_field "details" response;
    errors = body_field "errors" response;
    meta_data = body_field "metaData" response;
    path = path;
    timestamp = timestamp;
  }

  -- catch
  unfoldable pub catch : Exception → String → String → ApiErrorResponse
  unfolding build_error_body
  catch (http e) path timestamp = build_error_body e.status e.response path timestamp
  catch (other message) path timestamp = build_error_body 500 (string message) path timestamp
