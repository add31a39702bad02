-- ===== src/Gateway/Client.antt =====
-- apps/api-gateway/src/http/microservice-http-client.service.ts: `forward` and `forwardRaw`. What the
-- n-th request comes to is Axios's answer, `request n`; the loop of `forward` has fuel.
pub mod Ends
use bumpa_achievement_system.Common.{
  ℕ, zero, suc, ◌+◌, ◌*◌, String, Bool, true, false, not, ◌&&◌, ◌||◌, Option, none, some, List, [],
  ◌∷◌, if◌then◌else◌, leb, nat_eq,
}
use bumpa_achievement_system.Json.{
  Json, undefined, null, boolean, number, string, array, object, Items, nil, Fields, end, field,
}

pub data Method : Type 0 where
  get post patch : Method

abbrev pub is_get : Method → Bool
is_get get = true
is_get post = false
is_get patch = false

-- The downstream service accepts, or refuses with a status; or there is no response; or the error is
-- not one of Axios.
pub data Answer : Type 0 where
  accepted : Json → Answer
  refused : ℕ → Json → Answer
  no_response : Answer
  other_error : Answer

abbrev pub read_retries : ℕ
read_retries = 2

abbrev pub retry_delay_ms : ℕ
retry_delay_ms = 150

-- The test of the status; an absent status is 0.
abbrev pub is_transient : ℕ → Bool
is_transient status =
    nat_eq status 0 || (nat_eq status 408 || (nat_eq status 429 || leb 500 status))

abbrev pub status_of : Answer → Option ℕ
status_of (accepted d) = none
status_of (refused status d) = some status
status_of no_response = some 0
status_of other_error = none

abbrev pub transient_error : Option ℕ → Bool
transient_error none = false
transient_error (some status) = is_transient status

-- shouldRetry
unfoldable pub should_retry : Method → ℕ → Answer → Bool
should_retry method attempt error =
    if not (is_get method) || leb read_retries attempt
    then false
    else transient_error (status_of error)

-- common/app-exception.ts and common/error-code.enum.ts, and the HttpException of Nest: the status and
-- the response.
pub record HttpException : Type 0 where
  pub status : ℕ
  pub response : Json

abbrev pub downstream_unavailable : HttpException
downstream_unavailable = record {
  status = 502;
  response = object (
      field "message" (string "Downstream service is unavailable")
        (field "errorCode" (string "DOWNSTREAM_UNAVAILABLE") (field "details" (array nil) end)));
}

-- `text` is JavaScript's String(value).
module _ (text : Json → String) where
  -- toHttpExceptionResponse
  unfoldable pub to_http_exception_response : Json → Json
  to_http_exception_response null = string "Downstream service failed"
  to_http_exception_response (number n) = string (text (number n))
  to_http_exception_response (boolean b) = string (text (boolean b))
  to_http_exception_response undefined = undefined
  to_http_exception_response (string s) = string s
  to_http_exception_response (array l) = array l
  to_http_exception_response (object fs) = object fs

  -- toHttpException
  unfoldable pub to_http_exception : Answer → HttpException
  unfolding to_http_exception_response
  to_http_exception (refused status d) = record {
    status = status;
    response = to_http_exception_response d;
  }
  to_http_exception (accepted d) = downstream_unavailable
  to_http_exception no_response = downstream_unavailable
  to_http_exception other_error = downstream_unavailable

  pub data Forwarded : Type 0 where
    returned : Json → Forwarded
    threw : HttpException → Forwarded

  -- How the call has ended, after how many requests and how long a wait.
  pub record Ended : Type 0 where
    pub result : Forwarded
    pub requests : ℕ
    pub waited_ms : ℕ

  module _ (method : Method) (request : ℕ → Answer) where
    -- One answer; `retry` is the rest of the loop.
    abbrev pub answered : ℕ → ℕ → Answer → Option Ended → Option Ended
    answered attempt waited (accepted d) retry =
        some (record { result = returned d; requests = attempt + 1; waited_ms = waited })
    answered attempt waited error retry =
        if should_retry method attempt error
        then retry
        else some (record {
          result = threw (to_http_exception error);
          requests = attempt + 1;
          waited_ms = waited;
        })

    unfoldable pub forward_loop : ℕ → ℕ → ℕ → Option Ended
    unfolding should_retry to_http_exception
    forward_loop zero attempt waited = none
    forward_loop (suc fuel) attempt waited =
        let retry = forward_loop fuel (attempt + 1) (waited + retry_delay_ms * (attempt + 1)) in
        answered attempt waited (request attempt) retry

    unfoldable pub forward : Option Ended
    unfolding forward_loop
    forward = forward_loop (read_retries + 1) 0 0

  -- forwardRaw
  unfoldable pub forward_raw : Answer → Forwarded
  unfolding to_http_exception
  forward_raw (accepted d) = returned d
  forward_raw (refused status d) = threw (to_http_exception (refused status d))
  forward_raw no_response = threw (to_http_exception no_response)
  forward_raw other_error = threw (to_http_exception other_error)
