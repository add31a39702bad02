-- ===== src/Gateway/Envelope.antt =====
-- apps/api-gateway/src/common/response.interceptor.ts: the envelope of the gateway's answers. The
-- status and the timestamp come from the response and the clock.
pub mod Wrapped
pub mod Carried
use bumpa_achievement_system.Common.{
  ℕ, String, Bool, true, false, ◌&&◌, Option, none, some, ◌==◌, if◌then◌else◌,
}
use bumpa_achievement_system.Json.{
  is_true, Json, undefined, null, boolean, number, string, array, object, Items, nil, cons, Fields,
  end, field, get, has_own, or_else,
}

-- normalizeUndefined
unfoldable mutual
  pub normalize_undefined : Json → Json
  normalize_undefined undefined = null
  normalize_undefined null = null
  normalize_undefined (boolean b) = boolean b
  normalize_undefined (number n) = number n
  normalize_undefined (string s) = string s
  normalize_undefined (array l) = array (normalize_items l)
  normalize_undefined (object fs) = object (normalize_fields fs)

  pub normalize_items : Items → Items
  normalize_items nil = nil
  normalize_items (cons x l) = cons (normalize_undefined x) (normalize_items l)

  pub normalize_fields : Fields → Fields
  normalize_fields end = end
  normalize_fields (field k v fs) = field k (normalize_undefined v) (normalize_fields fs)

-- isAlreadyWrapped
unfoldable pub is_already_wrapped : Json → Bool
unfolding get
is_already_wrapped (object fs) = is_true (get "success" fs)
is_already_wrapped undefined = false
is_already_wrapped null = false
is_already_wrapped (boolean b) = false
is_already_wrapped (number n) = false
is_already_wrapped (string s) = false
is_already_wrapped (array l) = false

abbrev pub is_primitive : Json → Bool
is_primitive null = true
is_primitive (string s) = true
is_primitive (number n) = true
is_primitive (boolean b) = true
is_primitive undefined = false
is_primitive (array l) = false
is_primitive (object fs) = false

pub all_primitive : Fields → Bool
all_primitive end = true
all_primitive (field k v fs) = is_primitive v && all_primitive fs

-- isMeta, and the value if it is so.
unfoldable pub meta_of : Json → Option Json
unfolding all_primitive
meta_of (object fs) = if all_primitive fs then some (object fs) else none
meta_of undefined = none
meta_of null = none
meta_of (boolean b) = none
meta_of (number n) = none
meta_of (string s) = none
meta_of (array l) = none

abbrev pub text_of : Json → Option String
text_of (string s) = some s
text_of undefined = none
text_of null = none
text_of (boolean b) = none
text_of (number n) = none
text_of (array l) = none
text_of (object fs) = none

pub record ApiEnvelopePayload : Type 0 where
  pub data_part : Json
  pub message : Option String
  pub meta : Option Json

abbrev no_envelope : ApiEnvelopePayload
no_envelope = record { data_part = undefined; message = none; meta = none }

-- extractEnvelope
unfoldable pub extract_envelope : Json → ApiEnvelopePayload
unfolding get has_own meta_of
extract_envelope (object fs) = record {
  data_part = if has_own "data" fs then get "data" fs else object fs;
  message = text_of (get "message" fs);
  meta = meta_of (get "meta" fs);
}
extract_envelope undefined = no_envelope
extract_envelope null = no_envelope
extract_envelope (boolean b) = no_envelope
extract_envelope (number n) = no_envelope
extract_envelope (string s) = no_envelope
extract_envelope (array l) = no_envelope

-- ...(envelope.message ? { message } : {}): the empty text is false.
abbrev pub message_field : Option String → Fields → Fields
message_field none fs = fs
message_field (some m) fs = if m == "" then fs else field "message" (string m) fs

abbrev pub meta_field : Option Json → Fields
meta_field none = end
meta_field (some m) = field "meta" m end

-- The answer for data that is not wrapped yet.
unfoldable pub wrap : ℕ → String → Json → Json
unfolding extract_envelope
wrap status_code timestamp d =
    let envelope = extract_envelope d in
    object (
      field "success" (boolean true) (
        field "statusCode" (number status_code) (
          field "data" (or_else envelope.data_part d) (
            field "timestamp" (string timestamp)
              (message_field envelope.message (meta_field envelope.meta))))))

-- intercept
unfoldable pub intercept : ℕ → String → Json → Json
unfolding normalize_undefined is_already_wrapped wrap
intercept status_code timestamp d =
    let normalized = normalize_undefined d in
    if is_already_wrapped normalized then normalized else wrap status_code timestamp normalized
