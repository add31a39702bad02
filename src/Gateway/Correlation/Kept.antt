-- ===== src/Gateway/Correlation/Kept.antt =====
-- One identifier for a request through the gateway and the service behind it.
use bumpa_achievement_system.Common.{
  ◌≡◌, refl, sym, ◌∙◌, ap, String, Bool, false, Option, none, some, ◌==◌, concat_text, Bool-cases,
  inl, inr, eq_iff, codes, codes-concat_text,
}
use bumpa_achievement_system.Logging.{correlation_id_of}
use bumpa_achievement_system.Gateway.Routes.{
  Endpoint, post_purchases, get_banks, get_user_achievements, get_admin_achievement_groups,
  post_admin_achievement_groups, patch_admin_achievement_groups, get_admin_achievements,
  get_admin_catalog, post_admin_achievements, patch_admin_achievements, get_admin_badges,
  post_admin_badges, patch_admin_badges, get_cashbacks, post_cashbacks_retry,
  post_webhooks_paystack, GatewayRequest, ForwardRequest, forward_of, optional_header, handle,
  forwards,
}
use bumpa_achievement_system.Gateway.Routes.Reaches.{forwarded}
use bumpa_achievement_system.Gateway.Correlation.{headers_of, header}

-- The request carries the identifier, and no header of its own would replace it.
record Carries (f : ForwardRequest) (r : GatewayRequest) : Type 0 where
  carried : f.correlation_id ≡ r.correlation_id
  free : header "x-correlation-id" f.headers ≡ none

other_header :
    (name : String) (v : Option String)
    → (name == "x-correlation-id") ≡ false
    → header "x-correlation-id" (optional_header name v) ≡ none
other_header name none h = refl
other_header name (some v) h = elim (Bool-cases (v == "")) [
  | inl blank ↦ simp blank refl
  | inr given ↦ simp (given, h) refl
]

carries : (e : Endpoint) (r : GatewayRequest) → Carries (forward_of e r) r
unfolding forward_of
carries (post_purchases body) r = record {
  carried = refl;
  free = other_header "x-idempotency-key" r.idempotency_key refl;
}
carries (post_webhooks_paystack raw) r = record {
  carried = refl;
  free = other_header "x-paystack-signature" r.paystack_signature refl;
}
carries (get_banks query) r = record { carried = refl; free = refl }
carries (get_user_achievements id) r = record { carried = refl; free = refl }
carries get_admin_achievement_groups r = record { carried = refl; free = refl }
carries (post_admin_achievement_groups body) r = record { carried = refl; free = refl }
carries (patch_admin_achievement_groups key body) r = record { carried = refl; free = refl }
carries (get_admin_achievements query) r = record { carried = refl; free = refl }
carries get_admin_catalog r = record { carried = refl; free = refl }
carries (post_admin_achievements body) r = record { carried = refl; free = refl }
carries (patch_admin_achievements id body) r = record { carried = refl; free = refl }
carries (get_admin_badges query) r = record { carried = refl; free = refl }
carries (post_admin_badges body) r = record { carried = refl; free = refl }
carries (patch_admin_badges id body) r = record { carried = refl; free = refl }
carries (get_cashbacks query) r = record { carried = refl; free = refl }
carries (post_cashbacks_retry id body) r = record { carried = refl; free = refl }

drawn : (random : String) → (concat_text "corr_" random == "") ≡ false
drawn random = elim (Bool-cases (concat_text "corr_" random == "")) [
  | inl blank ↦
      let e : concat_text "corr_" random ≡ "" = (eq_iff (concat_text "corr_" random) "").0 blank in
      absurd (cc (sym (codes-concat_text "corr_" random) ∙ ap codes e))
  | inr set ↦ set
]

not_blank :
    (random : String) (incoming : Option String) → (correlation_id_of random incoming == "") ≡ false
unfolding correlation_id_of
not_blank random none = drawn random
not_blank random (some incoming) = elim (Bool-cases (incoming == "")) [
  | inl blank ↦ simp blank (drawn random)
  | inr given ↦ simp given refl
]

header_carried :
    (f : ForwardRequest)
    → (f.correlation_id == "") ≡ false
    → header "x-correlation-id" f.headers ≡ none
    → header "x-correlation-id" (headers_of f) ≡ some f.correlation_id
header_carried f set free = simp (set, free) refl

-- What the gateway forwards has the identifier that its middleware gave the request, the client's or
-- a drawn one, and the middleware of the service behind it gives its request the same.
pub correlation_id_kept :
    (random random' : String) (incoming : Option String) (admin_api_key : Option String)
    (accepts : Endpoint → Bool) (r : GatewayRequest) (f : ForwardRequest)
    → r.correlation_id ≡ correlation_id_of random incoming
    → handle admin_api_key accepts r ≡ forwards f
    → correlation_id_of random' (header "x-correlation-id" (headers_of f)) ≡ r.correlation_id
unfolding correlation_id_of
correlation_id_kept random random' incoming admin_api_key accepts r f given h =
    let (_, _, e) = forwarded admin_api_key accepts r f h in
    let c = carries r.endpoint r in
    let same : f.correlation_id ≡ r.correlation_id =
      ap (λ (x : ForwardRequest). x.correlation_id) (sym e) ∙ c.carried in
    let set : (f.correlation_id == "") ≡ false =
      ap (λ i. i == "") (same ∙ given) ∙ not_blank random incoming in
    let free : header "x-correlation-id" f.headers ≡ none =
      ap (λ (x : ForwardRequest). header "x-correlation-id" x.headers) (sym e) ∙ c.free in
    ap (correlation_id_of random') (header_carried f set free) ∙ (kept f.correlation_id set ∙ same)
  where
    kept : (i : String) → (i == "") ≡ false → correlation_id_of random' (some i) ≡ i
    kept i set = simp set refl
