-- ===== src/Loyalty/Badges/Awards.antt =====
-- Which badges a purchase awards, and what it saves for each.
use mathlib.Core.List.{Memᴰ, map-append, append_assoc, append-nil}
use bumpa_achievement_system.Common.{
  ℕ, ◌≡◌, refl, ◌∙◌, inl, inr, String, Bool, not, ◌&&◌, some, List, [], ◌∷◌, ◌++◌, map, arith,
  if◌then◌else◌, has, Pairs, none_left, Pairs-concat, length, filter, Bool-cases, leb, all,
}
use bumpa_achievement_system.Events.{
  Env, PurchaseCompletedEvent, BadgeUnlockedEvent, badge_unlocked, badge_event, OutboxEvent,
  pending,
}
use bumpa_achievement_system.Loyalty.Badges.{
  BadgeConfig, UserBadge, BadgeRows, meets_badge_requirement, badge_unlocked_event, badge_row,
  award, consider, for_badges, unlock_badges,
}

-- The badge is not held, and the user has enough unlocked achievements and each required one.
abbrev pub deserved : List String → List String → BadgeConfig → Bool
deserved held unlocked badge =
    not (has held badge.id)
    && (leb badge.required_achievement_count (length unlocked)
        && all (has unlocked) badge.required_achievement_ids)

abbrev badge_ids : List UserBadge → List String
badge_ids = map (λ r. r.badge_id)

abbrev config_ids : List BadgeConfig → List String
config_ids = map (λ b. b.id)

module _ (env : Env) (e : PurchaseCompletedEvent) where
  -- The outbox row announces the badge with its reward, to the purchase's user and under its
  -- correlation id, and waits to be published.
  pub record AnnouncesBadge (badges : List BadgeConfig) (r : UserBadge) (o : OutboxEvent)
      : Type 0 where
    pub config : BadgeConfig
    pub listed : Memᴰ config badges
    pub awards : r.badge_id ≡ config.id
    pub owned : r.user_id ≡ e.payload.user_id
    pub event : BadgeUnlockedEvent
    pub carries : o.payload ≡ badge_event event
    pub names : event.payload.badge_name ≡ config.name
    pub rewards : event.payload.reward_amount_kobo ≡ some config.reward_amount_kobo
    pub in_currency : event.payload.reward_currency ≡ config.reward_currency
    pub user : event.payload.user ≡ e.payload.user
    pub correlated : event.correlation_id ≡ e.correlation_id
    pub identified : o.id ≡ event.event_id
    pub routed : o.routing_key ≡ badge_unlocked
    pub waits : o.status ≡ pending

  module _ (all_badges : List BadgeConfig) (held unlocked : List String) where
    abbrev AwardRows : BadgeRows → Type 0
    AwardRows s =
        Pairs (AnnouncesBadge all_badges) s.saved s.outbox
        × (s.outbox_event_ids ≡ map (λ o. o.id) s.outbox)

    award-AwardRows :
        (b : BadgeConfig) (s : BadgeRows)
        → Memᴰ b all_badges
        → AwardRows s
        → AwardRows (award env e b s)
    unfolding award
    award-AwardRows b s m (p, q) = (
      Pairs-concat (AnnouncesBadge all_badges) (badge_row env e b s.drawn) _ p (record {
        config = b;
        listed = m;
        awards = refl;
        owned = refl;
        event = badge_unlocked_event env e b s.drawn;
        carries = refl;
        names = refl;
        rewards = refl;
        in_currency = refl;
        user = refl;
        correlated = refl;
        identified = refl;
        routed = refl;
        waits = refl;
      }),
      simp map-append (ground (arith, q)),
    )

    award-saved :
        (b : BadgeConfig) (s : BadgeRows)
        → badge_ids (award env e b s).saved ≡ badge_ids s.saved ++ b.id ∷ []
    unfolding award
    award-saved b s = simp map-append

    consider_lem :
        (b : BadgeConfig) (s : BadgeRows)
        → consider env e held (length unlocked) unlocked b s
          ≡ (if deserved held unlocked b then award env e b s else s)
    unfolding consider meets_badge_requirement
    consider_lem b s = ground arith

    for_badges_lem :
        (bs : List BadgeConfig) (s : BadgeRows)
        → ((b : BadgeConfig) → Memᴰ b bs → Memᴰ b all_badges)
        → AwardRows s
        → AwardRows (for_badges env e held (length unlocked) unlocked bs s)
          × (badge_ids (for_badges env e held (length unlocked) unlocked bs s).saved
              ≡ badge_ids s.saved ++ config_ids (filter (deserved held unlocked) bs))
    unfolding for_badges
    for_badges_lem [] s m w = (w, simp append-nil)
    for_badges_lem (b ∷ bs) s m w = elim (Bool-cases (deserved held unlocked b)) [
      | inl given ↦
          let t = award env e b s in
          let (rows, ids) =
            for_badges_lem bs t (λ c i. m c (Memᴰ.tail i))
              (award-AwardRows b s (m b (Memᴰ.head refl)) w) in
          simp (consider_lem, given) (rows, ids ∙ simp (award-saved, append_assoc))
      | inr skipped ↦
          simp (consider_lem, skipped) (for_badges_lem bs s (λ c i. m c (Memᴰ.tail i)) w)
    ]

-- The badges saved are exactly the active ones that are not held and whose count and achievements
-- the user has, in order; each comes with one outbox row that announces it, and the identifiers
-- returned are those of the rows.
pub unlock_badges_lem :
    (env : Env) (e : PurchaseCompletedEvent) (unlocked : List String) (badges : List BadgeConfig)
    (held : List String) (drawn : ℕ)
    → let s = unlock_badges env e unlocked badges held drawn in
      (map (λ (r : UserBadge). r.badge_id) s.saved
        ≡ map (λ (b : BadgeConfig). b.id) (filter (deserved held unlocked) badges))
      × Pairs (AnnouncesBadge env e badges) s.saved s.outbox
      × (s.outbox_event_ids ≡ map (λ (o : OutboxEvent). o.id) s.outbox)
unfolding unlock_badges
unlock_badges_lem env e unlocked badges held drawn =
    let ((pairs, listed), ids) =
      for_badges_lem env e badges held unlocked badges
        (record { saved = []; outbox = []; outbox_event_ids = []; drawn = drawn }) (λ b i. i)
        (none_left, refl) in
    (ids, pairs, listed)
