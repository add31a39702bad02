-- ===== src/Gateway/Routes/Reaches.antt =====
-- What the gateway lets through, and where it arrives.
use mathlib.Core.Bool.{and-eq-true_iff}
use bumpa_achievement_system.Common.{
  ◌⊎◌, ℕ, ◌≡◌, ◌≢◌, refl, sym, ap, ◌∙◌, String, Bool, true, false, not, ◌&&◌, Option, none, some,
  List, [], ◌∷◌, ◌++◌, nat_eq, codes, codes-concat_text, all, Bool-cases, inl, inr, arith, ◌==◌,
  eq_iff,
}
use bumpa_achievement_system.Gateway.Access.{can_activate, is_safe_code, is_safe_id}
use bumpa_achievement_system.Gateway.Routes.{
  Endpoint, post_purchases, get_banks, get_user_achievements, get_admin_achievement_groups,
  post_admin_achievement_groups, patch_admin_achievement_groups, get_admin_achievements,
  get_admin_catalog, post_admin_achievements, patch_admin_achievements, get_admin_badges,
  post_admin_badges, patch_admin_badges, get_cashbacks, post_cashbacks_retry,
  post_webhooks_paystack, GatewayRequest, ForwardRequest, is_guarded, id_of, forward_of, is_safe,
  forwards, handle,
}
use bumpa_achievement_system.Gateway.Routes.Services.{
  segments, ServiceMethod, create, get_achievement_state, get_catalog, list_groups, create_group,
  update_group, list_achievements, create_achievement, update_achievement, list_badges,
  create_badge, update_badge, list_banks, list, retry, handle_webhook, service_route,
}

-- The method of the service that a route of the gateway stands for.
abbrev pub meant : Endpoint → ServiceMethod
meant (post_purchases body) = create
meant (get_banks query) = list_banks
meant (get_user_achievements user_id) = get_achievement_state (codes user_id)
meant get_admin_achievement_groups = list_groups
meant (post_admin_achievement_groups body) = create_group
meant (patch_admin_achievement_groups key body) = update_group (codes key)
meant (get_admin_achievements query) = list_achievements
meant get_admin_catalog = get_catalog
meant (post_admin_achievements body) = create_achievement
meant (patch_admin_achievements id body) = update_achievement (codes id)
meant (get_admin_badges query) = list_badges
meant (post_admin_badges body) = create_badge
meant (patch_admin_badges id body) = update_badge (codes id)
meant (get_cashbacks query) = list
meant (post_cashbacks_retry id body) = retry (codes id)
meant (post_webhooks_paystack raw) = handle_webhook

safe_not_slash : (c : ℕ) → is_safe_code c ≡ true → nat_eq c b'/' ≡ false
safe_not_slash c h = ground arith

segments_safe : (l : List ℕ) → all is_safe_code l ≡ true → segments l ≡ l ∷ []
unfolding segments
segments_safe [] h = refl
segments_safe (c ∷ cs) h =
    let (first, rest) = (and-eq-true_iff (is_safe_code c) (all is_safe_code cs)).0 h in
    simp (safe_not_slash c first, segments_safe cs rest)

segments_safe_then :
    (l m : List ℕ) → all is_safe_code l ≡ true → segments (l ++ b'/' ∷ m) ≡ l ∷ segments m
unfolding segments
segments_safe_then [] m h = refl
segments_safe_then (c ∷ cs) m h =
    let (first, rest) = (and-eq-true_iff (is_safe_code c) (all is_safe_code cs)).0 h in
    simp (safe_not_slash c first, segments_safe_then cs m rest)

safe_codes : (id : String) → is_safe_id id ≡ true → all is_safe_code (codes id) ≡ true
safe_codes id h = ((and-eq-true_iff (not (id == "")) (all is_safe_code (codes id))).0 h).1

arrives :
    (e : Endpoint) (r : GatewayRequest)
    → is_safe (id_of e) ≡ true
    → (let f = forward_of e r in
        service_route f.service f.method (segments (codes f.path)) ≡ some (meant e))
unfolding forward_of service_route segments
arrives (post_purchases body) r h = refl
arrives (get_banks query) r h = refl
arrives (get_user_achievements user_id) r h =
    simp codes-concat_text
      (simp (segments_safe_then (codes user_id) (codes "achievements") (safe_codes user_id h)))
arrives get_admin_achievement_groups r h = refl
arrives (post_admin_achievement_groups body) r h = refl
arrives (patch_admin_achievement_groups key body) r h =
    simp codes-concat_text (simp (segments_safe (codes key) (safe_codes key h)))
arrives (get_admin_achievements query) r h = refl
arrives get_admin_catalog r h = refl
arrives (post_admin_achievements body) r h = refl
arrives (patch_admin_achievements id body) r h =
    simp codes-concat_text (simp (segments_safe (codes id) (safe_codes id h)))
arrives (get_admin_badges query) r h = refl
arrives (post_admin_badges body) r h = refl
arrives (patch_admin_badges id body) r h =
    simp codes-concat_text (simp (segments_safe (codes id) (safe_codes id h)))
arrives (get_cashbacks query) r h = refl
arrives (post_cashbacks_retry id body) r h =
    simp codes-concat_text (simp (segments_safe_then (codes id) (codes "retry") (safe_codes id h)))
arrives (post_webhooks_paystack raw) r h = refl

has_key :
    (admin_api_key provided : Option String)
    → can_activate admin_api_key provided ≡ true
    → (k : String) × (admin_api_key ≡ some k) × (provided ≡ some k) × (k ≢ "")
unfolding can_activate
has_key none provided h = absurd (cc h)
has_key (some k) none h = elim (Bool-cases (k == "")) [
  | inl blank ↦ absurd (cc (simp blank at h))
  | inr set ↦ absurd (cc (simp set at h))
]
has_key (some k) (some p) h =
    let (set, given) = (and-eq-true_iff (not (k == "")) (not (p == "") && p == k)).0 h in
    let (_, same) = (and-eq-true_iff (not (p == "")) (p == k)).0 given in
    (k, refl, ap some ((eq_iff p k).0 same), λ e. cc ((eq_iff k "").1 e, set))

pub forwarded :
    (admin_api_key : Option String) (accepts : Endpoint → Bool) (r : GatewayRequest)
    (f : ForwardRequest)
    → handle admin_api_key accepts r ≡ forwards f
    → (is_guarded r.endpoint && not (can_activate admin_api_key r.api_key) ≡ false)
      × (is_safe (id_of r.endpoint) ≡ true)
      × (forward_of r.endpoint r ≡ f)
unfolding handle
forwarded admin_api_key accepts r f h =
    elim (Bool-cases (is_guarded r.endpoint && not (can_activate admin_api_key r.api_key))) [
      | inl refused ↦ absurd (cc (simp refused at h))
      | inr open_to ↦
          let h' = simp open_to at h in
          elim (Bool-cases (is_safe (id_of r.endpoint) && accepts r.endpoint)) [
            | inr bad ↦ absurd (cc (simp bad at h'))
            | inl fine ↦
                let (safe, _) =
                  (and-eq-true_iff (is_safe (id_of r.endpoint)) (accepts r.endpoint)).0 fine in
                (open_to, safe, cc (simp fine at h'))
          ]
    ]

-- A request to a guarded route is forwarded only with the key of the configuration, which is then not
-- empty.
handle_guards :
    (admin_api_key : Option String) (accepts : Endpoint → Bool) (r : GatewayRequest)
    (f : ForwardRequest)
    → is_guarded r.endpoint ≡ true
    → handle admin_api_key accepts r ≡ forwards f
    → (k : String) × (admin_api_key ≡ some k) × (r.api_key ≡ some k) × (k ≢ "")
handle_guards admin_api_key accepts r f guarded h =
    let (key, _, _) = forwarded admin_api_key accepts r f h in
    has_key admin_api_key r.api_key (ground (arith, key))

-- What the gateway forwards arrives at the method of the service that the route stands for, and with
-- the identifier of the route, which is checked to hold nothing that would change the path; and if the
-- route is guarded, the request came with the key of the configuration, which is not empty.
pub handle_reaches :
    (admin_api_key : Option String) (accepts : Endpoint → Bool) (r : GatewayRequest)
    (f : ForwardRequest)
    → handle admin_api_key accepts r ≡ forwards f
    → (service_route f.service f.method (segments (codes f.path)) ≡ some (meant r.endpoint))
      × ((is_guarded r.endpoint ≡ false)
          ⊎ ((k : String) × (admin_api_key ≡ some k) × (r.api_key ≡ some k) × (k ≢ "")))
handle_reaches admin_api_key accepts r f h =
    let (_, safe, e) = forwarded admin_api_key accepts r f h in
    (
      ap (λ (x : ForwardRequest). service_route x.service x.method (segments (codes x.path)))
            (sym e)
          ∙ arrives r.endpoint r safe,
      elim (Bool-cases (is_guarded r.endpoint)) [
        | inl guarded ↦ inr (handle_guards admin_api_key accepts r f guarded h)
        | inr open_to ↦ inl open_to
      ],
    )
