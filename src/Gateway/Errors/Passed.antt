-- ===== src/Gateway/Errors/Passed.antt =====
-- From the answer of a service to that of the gateway.
use mathlib.Core.Path.{subst}
use bumpa_achievement_system.Common.{ℕ, ◌-◌, ◌≡◌, refl, sym, String, some}
use bumpa_achievement_system.Json.{Json, string, object, Fields, get}
use bumpa_achievement_system.Gateway.Client.{
  Method, Answer, accepted, refused, no_response, other_error, Forwarded, returned, threw, Ended,
  forward, to_http_exception,
}
use bumpa_achievement_system.Gateway.Client.Ends.{outcome, forward_ends}
use bumpa_achievement_system.Gateway.Envelope.{intercept}
use bumpa_achievement_system.Gateway.Envelope.Carried.{Enveloped, intercept-Enveloped}
use bumpa_achievement_system.Gateway.Errors.{http, ApiErrorResponse, catch}

pub data Reply : Type 0 where
  success : Json → Reply
  failure : ApiErrorResponse → Reply

module _ (text : Json → String) (status_code : ℕ) (timestamp path : String) where
  -- What Nest makes of a handler's result: the interceptor sees what it returns, the filter what it
  -- throws.
  unfoldable pub reply : Forwarded text → Reply
  reply (returned d) = success (intercept status_code timestamp d)
  reply (threw e) = failure (catch text (http e) path timestamp)

  -- The body of a refusal says `m`.
  pub data Says : Json → String → Type 0 where
    in_text : {d : Json} {m : String} → d ≡ string m → Says d m
    in_field :
        {d : Json} {fs : Fields} {m : String}
        → d ≡ object fs
        → get "message" fs ≡ string m
        → Says d m

  -- What a client may rely on, for each answer of the service.
  abbrev pub Relays : Answer → Reply → Type 0
  Relays (accepted d) (success r) = Enveloped status_code timestamp d r
  Relays (refused status d) (failure e) =
      (e.status_code ≡ status) × ((m : String) → Says d m → e.message ≡ string m)
  Relays no_response (failure e) =
      (e.status_code ≡ 502) × (e.error_code ≡ string "DOWNSTREAM_UNAVAILABLE")
  Relays other_error (failure e) =
      (e.status_code ≡ 502) × (e.error_code ≡ string "DOWNSTREAM_UNAVAILABLE")
  Relays (accepted d) (failure e) = ⊥
  Relays (refused status d) (success r) = ⊥
  Relays no_response (success r) = ⊥
  Relays other_error (success r) = ⊥

  said :
      (status : ℕ) (d : Json) (m : String)
      → Says d m
      → (catch text (http (to_http_exception text (refused status d))) path timestamp).message
        ≡ string m
  unfolding catch to_http_exception
  said status d m (in_text e) = rw e refl
  said status d m (in_field e f) = rw e (rw f refl)

  status_of_refusal :
      (status : ℕ) (d : Json)
      → (catch text (http (to_http_exception text (refused status d))) path timestamp).status_code
        ≡ status
  unfolding catch to_http_exception
  status_of_refusal status d = refl

  relays : (a : Answer) → Relays a (reply (outcome text a))
  unfolding reply catch get to_http_exception
  relays (accepted d) = intercept-Enveloped status_code timestamp d
  relays (refused status d) = (status_of_refusal status d, said status d)
  relays no_response = (refl, refl)
  relays other_error = (refl, refl)

  -- What the gateway answers, once its requests have ended, is what the last answer of the service
  -- calls for. Accepted data, with null for each undefined in it, is passed as it is if it says that it
  -- is an envelope, and else stands in an envelope of success with the status and the time: its own
  -- property `data` if that is neither undefined nor null, or the whole of it. A refusal keeps its
  -- status, and its message when it is a text or has one as its property; no answer gives 502.
  pub forward-Relays :
      (method : Method) (request : ℕ → Answer)
      → (e : Ended text) × (forward text method request ≡ some e)
        × Relays (request (e.requests - 1)) (reply e.result)
  forward-Relays method request =
      let (e, ended, _, _, _, last, _) = forward_ends text method request in
      (
        e,
        ended,
        subst (λ o. Relays (request (e.requests - 1)) (reply o)) (sym last)
            (relays (request (e.requests - 1))),
      )
