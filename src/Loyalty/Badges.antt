-- ===== src/Loyalty/Badges.antt =====
-- apps/loyalty-service/src/loyalty/loyalty.service.ts: `unlockBadges`, `meetsBadgeRequirement` and
-- `getBadgeState`, over the rows that the queries have returned.
pub mod Awards
pub mod State
use bumpa_achievement_system.Common.{
  ℕ, ◌+◌, ◌-◌, String, Bool, not, ◌&&◌, ◌||◌, Option, none, some, List, [], ◌∷◌, ◌++◌, map,
  if◌then◌else◌, leb, max, has, length, filter, all, find,
}
use bumpa_achievement_system.Events.{
  Env, user_badge, event, badge_unlocked, badge_event, PurchaseCompletedEvent, BadgeUnlockedEvent,
  create_domain_event, OutboxEvent, create_outbox_event,
}

-- entities/badge-config.entity.ts
pub record BadgeConfig : Type 0 where
  pub id : String
  pub name : String
  pub description : String
  pub sort_order : ℕ
  pub required_achievement_count : ℕ
  pub required_achievement_ids : List String
  pub reward_amount_kobo : ℕ
  pub reward_currency : String
  pub image_url : Option String
  pub active : Bool

-- entities/user-badge.entity.ts
pub record UserBadge : Type 0 where
  pub id : String
  pub user_id : String
  pub badge_id : String

unfoldable pub meets_badge_requirement : BadgeConfig → ℕ → List String → Bool
meets_badge_requirement badge achievement_count unlocked =
    leb badge.required_achievement_count achievement_count
    && all (has unlocked) badge.required_achievement_ids

-- The rows that the loop saves, the identifiers that it returns, and those drawn so far.
pub record BadgeRows : Type 0 where
  pub saved : List UserBadge
  pub outbox : List OutboxEvent
  pub outbox_event_ids : List String
  pub drawn : ℕ

module _ (env : Env) (e : PurchaseCompletedEvent) where
  abbrev pub badge_unlocked_event : BadgeConfig → ℕ → BadgeUnlockedEvent
  badge_unlocked_event badge drawn =
      create_domain_event badge_unlocked
        (record {
          badge_name = badge.name;
          reward_amount_kobo = some badge.reward_amount_kobo;
          reward_currency = badge.reward_currency;
          user = e.payload.user;
        })
        e.correlation_id (env.create_readable_id event (drawn + 1)) (env.now (drawn + 1))

  abbrev pub badge_row : BadgeConfig → ℕ → UserBadge
  badge_row badge drawn = record {
    id = env.create_readable_id user_badge drawn;
    user_id = e.payload.user_id;
    badge_id = badge.id;
  }

  -- Save the badge and the outbox row that announces it.
  pub award : BadgeConfig → BadgeRows → BadgeRows
  award badge s =
      let announced = badge_unlocked_event badge s.drawn in
      record {
        saved = s.saved ++ badge_row badge s.drawn ∷ [];
        outbox =
            s.outbox
            ++ create_outbox_event announced.event_id announced.type (badge_event announced) ∷ [];
        outbox_event_ids = s.outbox_event_ids ++ announced.event_id ∷ [];
        drawn = s.drawn + 2;
      }

  -- The body of the `for` loop of `unlockBadges`: the badges held before, the count and the set of
  -- unlocked achievements do not change in it.
  pub consider : List String → ℕ → List String → BadgeConfig → BadgeRows → BadgeRows
  consider held achievement_count unlocked badge s =
      if has held badge.id || not (meets_badge_requirement badge achievement_count unlocked)
      then s
      else award badge s

  pub for_badges : List String → ℕ → List String → List BadgeConfig → BadgeRows → BadgeRows
  for_badges held achievement_count unlocked [] s = s
  for_badges held achievement_count unlocked (badge ∷ badges) s =
      for_badges held achievement_count unlocked badges
        (consider held achievement_count unlocked badge s)

  -- unlockBadges, from the ids of the unlocked achievements' rows, the active badges in order, and
  -- the ids of the badges held.
  unfoldable pub unlock_badges : List String → List BadgeConfig → List String → ℕ → BadgeRows
  unfolding award consider for_badges meets_badge_requirement
  unlock_badges unlocked badges held drawn =
      for_badges held (length unlocked) unlocked badges
        (record { saved = []; outbox = []; outbox_event_ids = []; drawn = drawn })

-- The reduction of `sort((left, right) => right.sortOrder - left.sortOrder)[0]`: the first of the
-- badges with the greatest sort order, since the sort is stable.
pub greatest : List BadgeConfig → Option BadgeConfig
greatest [] = none
greatest (b ∷ bs) =
    let rest = greatest bs in
    elim rest [ none ↦ some b | some c ↦ if leb c.sort_order b.sort_order then some b else some c ]

pub record BadgeState : Type 0 where
  pub current_badge : String
  pub next_badge : String
  pub remaining_to_unlock_next_badge : ℕ

abbrev name_of : Option BadgeConfig → String
name_of none = ""
name_of (some b) = b.name

unfoldable pub next_badge : List BadgeConfig → List String → Option BadgeConfig
next_badge badges held = find (λ (b : BadgeConfig). not (has held b.id)) badges

-- Math.max(requiredAchievementCount - achievementCount, missing, 0)
pub remaining_for : Option BadgeConfig → ℕ → List String → ℕ
remaining_for none achievement_count unlocked = 0
remaining_for (some b) achievement_count unlocked =
    max (b.required_achievement_count - achievement_count)
      (length (filter (λ a. not (has unlocked a)) b.required_achievement_ids))

-- getBadgeState, from the badges of the user's rows by the time of their unlock, and the active
-- badges in order.
unfoldable pub get_badge_state : List BadgeConfig → List BadgeConfig → ℕ → List String → BadgeState
unfolding greatest next_badge remaining_for
get_badge_state unlocked_badges badges achievement_count unlocked =
    let next = next_badge badges (map (λ (b : BadgeConfig). b.id) unlocked_badges) in
    record {
      current_badge = name_of (greatest unlocked_badges);
      next_badge = name_of next;
      remaining_to_unlock_next_badge = remaining_for next achievement_count unlocked;
    }
