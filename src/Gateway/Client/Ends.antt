-- ===== src/Gateway/Client/Ends.antt =====
-- How the loop of `forward` ends.
use bumpa_achievement_system.Common.{
  ℕ, zero, suc, ◌+◌, ◌-◌, ◌*◌, ◌≡◌, ◌≤◌, ◌<◌, refl, ap, ◌∙◌, String, if◌then◌else◌, nat_eq, true,
  false, some, arith, leb, Bool-cases, inl, inr,
}
use bumpa_achievement_system.Json.{Json}
use bumpa_achievement_system.Gateway.Client.{
  Method, get, post, patch, is_get, Answer, accepted, refused, no_response, other_error,
  transient_error, status_of, should_retry, to_http_exception, Forwarded, returned, threw, Ended,
  forward_loop, forward, retry_delay_ms,
}

retry_means :
    (method : Method) (attempt : ℕ) (error : Answer)
    → should_retry method attempt error ≡ true
    → (is_get method ≡ true) × (transient_error (status_of error) ≡ true) × (attempt < 2)
unfolding should_retry
retry_means post attempt error h = cc
retry_means patch attempt error h = cc
retry_means get attempt error h = elim (Bool-cases (leb 2 attempt)) [
  | inl late ↦ absurd (cc (simp late at h))
  | inr early ↦ (refl, cc (simp early at h), ground arith)
]

module _ (text : Json → String) where
  -- What the caller gets for an answer that is not asked for again.
  abbrev pub outcome : Answer → Forwarded text
  outcome (accepted d) = returned d
  outcome (refused status d) = threw (to_http_exception text (refused status d))
  outcome no_response = threw (to_http_exception text no_response)
  outcome other_error = threw (to_http_exception text other_error)

  module _ (method : Method) (request : ℕ → Answer) where
    -- From the request numbered `attempt` on.
    record IsEnd (attempt : ℕ) (e : Ended text) : Type 0 where
      later : attempt + 1 ≤ e.requests
      few : e.requests ≤ 3
      once : is_get method ≡ false → e.requests ≡ attempt + 1
      last : e.result ≡ outcome (request (e.requests - 1))
      transient :
          (n : ℕ)
          → attempt ≤ n
          → n + 1 < e.requests
          → transient_error (status_of (request n)) ≡ true

    stopped :
        (attempt waited : ℕ)
        → attempt < 3
        → IsEnd attempt (record {
          result = outcome (request attempt);
          requests = attempt + 1;
          waited_ms = waited;
        })
    stopped attempt waited h = record {
      later = omega arith;
      few = omega arith;
      once = λ g. refl;
      last = ap (λ n. outcome (request n)) (omega arith);
      transient = λ n a b. absurd (omega arith);
    }

    goes_on :
        (attempt : ℕ) (e : Ended text)
        → transient_error (status_of (request attempt)) ≡ true
        → is_get method ≡ true
        → IsEnd (attempt + 1) e
        → IsEnd attempt e
    goes_on attempt e bad g x = record {
      later = omega (arith, x.later);
      few = x.few;
      once = λ n. absurd (cc (g, n));
      last = x.last;
      transient = λ n a b. elim (Bool-cases (nat_eq n attempt)) [
        | inl this ↦
            let i : n ≡ attempt = ground arith in
            ap (λ k. transient_error (status_of (request k))) i ∙ bad
        | inr other ↦ x.transient n (ground arith) b
      ];
    }

    abbrev Result : ℕ → ℕ → ℕ → Type 0
    Result fuel attempt waited =
        (e : Ended text) × (forward_loop text method request fuel attempt waited ≡ some e)
        × IsEnd attempt e

    -- An error, after which the loop goes on or not.
    failed_ends :
        (fuel attempt waited : ℕ) (error : Answer)
        → (let retry =
              forward_loop text method request fuel
                (attempt + 1)
                (waited + retry_delay_ms * (attempt + 1)) in
            forward_loop text method request (suc fuel) attempt waited ≡ (
              if should_retry method attempt error
              then retry
              else some (record {
                result = threw (to_http_exception text error);
                requests = attempt + 1;
                waited_ms = waited;
              })))
        → request attempt ≡ error
        → outcome error ≡ threw (to_http_exception text error)
        → attempt < 3
        → (should_retry method attempt error ≡ true
            → Result fuel (attempt + 1) (waited + retry_delay_ms * (attempt + 1)))
        → Result (suc fuel) attempt waited
    failed_ends fuel attempt waited error unrolled is o h more =
        elim (Bool-cases (should_retry method attempt error)) [
          | inl again ↦
              let (e, ended, x) = more again in
              (
                e,
                unrolled ∙ simp again ended,
                goes_on attempt e
                    (ap (λ a. transient_error (status_of a)) is
                      ∙ (retry_means method attempt error again).1)
                    (retry_means method attempt error again).0 x,
              )
          | inr stop ↦ (
            record {
              result = outcome (request attempt);
              requests = attempt + 1;
              waited_ms = waited;
            },
            unrolled ∙ simp (stop, is, o),
            stopped attempt waited h,
          )
        ]

    by_answer :
        (fuel attempt waited : ℕ) (a : Answer)
        → request attempt ≡ a
        → attempt + suc fuel ≡ 3
        → (0 < fuel → Result fuel (attempt + 1) (waited + retry_delay_ms * (attempt + 1)))
        → Result (suc fuel) attempt waited
    unfolding forward_loop
    by_answer fuel attempt waited (accepted d) is h more = (
      record { result = outcome (request attempt); requests = attempt + 1; waited_ms = waited },
      simp is,
      stopped attempt waited (omega arith),
    )
    by_answer fuel attempt waited (refused status d) is h more =
        failed_ends fuel attempt waited (refused status d) (simp is) is refl (omega arith)
          (λ again. more (omega (arith, (retry_means method attempt (refused status d) again).2)))
    by_answer fuel attempt waited no_response is h more =
        failed_ends fuel attempt waited no_response (simp is) is refl (omega arith)
          (λ again. more (omega (arith, (retry_means method attempt no_response again).2)))
    by_answer fuel attempt waited other_error is h more =
        failed_ends fuel attempt waited other_error (simp is) is refl (omega arith)
          (λ again. more (omega (arith, (retry_means method attempt other_error again).2)))

    loop_ends :
        (fuel attempt waited : ℕ) → attempt + fuel ≡ 3 → 0 < fuel → Result fuel attempt waited
    loop_ends zero attempt waited total h = absurd (omega arith)
    loop_ends (suc fuel) attempt waited total h =
        by_answer fuel attempt waited (request attempt) refl total (λ left.
          loop_ends fuel (attempt + 1) (waited + retry_delay_ms * (attempt + 1)) (omega arith) left)

    -- Every call of `forward` ends, after three requests at most, and after one if it is not a GET. It
    -- returns or throws what the last answer says; each answer before that was a missing response, a
    -- time-out, a limit of the rate or an error of the server.
    pub forward_ends :
        (e : Ended text) × (forward text method request ≡ some e)
        × (1 ≤ e.requests)
        × (e.requests ≤ 3)
        × (is_get method ≡ false → e.requests ≡ 1)
        × (e.result ≡ outcome (request (e.requests - 1)))
        × ((n : ℕ) → n + 1 < e.requests → transient_error (status_of (request n)) ≡ true)
    unfolding forward
    forward_ends =
        let (e, ended, x) = loop_ends 3 0 0 (omega arith) (omega arith) in
        (
          e,
          ended,
          omega (arith, x.later),
          x.few,
          (λ g. omega (arith, x.once g)),
          x.last,
          (λ n b. x.transient n (omega arith) b),
        )
