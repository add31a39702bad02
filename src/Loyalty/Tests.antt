-- ===== src/Loyalty/Tests.antt =====
-- Runs of the loyalty service on concrete data.
pub mod Tables
mod Purchase
mod AdminTables
mod Admin
mod Seed
mod RuleRuns
use bumpa_achievement_system.Common.{
  ℕ, nat_eq, ◌≡◌, ◌↔◌, refl, String, true, false, none, some, List, [], ◌∷◌, has, Subset, map, find,
  ◌==◌, ◌&&◌, not, filter, Pairs, All, if◌then◌else◌,
}
use bumpa_achievement_system.Events.{
  Env, PurchaseCompletedEvent, purchase_completed, create_domain_event, UserSnapshot, OutboxEvent,
  create_outbox_event, achievement_unlocked, achievement_event,
}
use bumpa_achievement_system.Loyalty.Rules.{gte, AchievementRule, count, achievement_set, evaluate}
use bumpa_achievement_system.Loyalty.Unlock.{
  AchievementConfig, UserStats, UnlockState, unlock_start, unlock_achievements,
}
use bumpa_achievement_system.Loyalty.Unlock.Pass.{Settled}
use bumpa_achievement_system.Loyalty.Unlock.Loop.{
  unlock_achievements_total, unlock_achievements-Settled, unlock_achievements_least, IsClosed,
}
use bumpa_achievement_system.Loyalty.Unlock.Rows.{AreRows, unlock_achievements-AreRows}
use bumpa_achievement_system.Loyalty.Available.{ids_of, UnlockedAchievement, get_achievement_state}
use bumpa_achievement_system.Loyalty.Available.Next.{get_achievement_state_lem, found_for, key_of}
use bumpa_achievement_system.Common.Keyed.{dedup}
use bumpa_achievement_system.Loyalty.Badges.{
  BadgeConfig, UserBadge, unlock_badges, get_badge_state, next_badge, meets_badge_requirement,
}
use bumpa_achievement_system.Loyalty.Badges.Awards.{deserved, AnnouncesBadge, unlock_badges_lem}
use bumpa_achievement_system.Loyalty.Badges.State.{remaining_zero_iff}

abbrev name : ℕ → String
name n =
    if nat_eq n 0
    then "id0"
    else if nat_eq n 1
    then "id1"
    else if nat_eq n 2
    then "id2"
    else if nat_eq n 3
    then "id3"
    else "id4"

abbrev pub env : Env
env = record { create_readable_id = λ prefix n. name n; now = λ n. n }

abbrev pub ada : UserSnapshot
ada = record {
  id = "u1";
  email = "ada@example.com";
  name = "Ada";
  bank_account_number = none;
  bank_code = none;
}

abbrev pub purchase : PurchaseCompletedEvent
purchase =
    create_domain_event purchase_completed
      (record { user_id = "u1"; purchase_id = "p1"; amount_kobo = 5000; user = ada }) "c1" "e1" 7

abbrev stats : UserStats
stats = record { user_id = "u1"; purchase_count = 1; total_spend_kobo = 5000 }

abbrev config : String → AchievementRule → AchievementConfig
config id rule = record {
  id = id;
  name = id;
  description = "";
  group_key = "purchases";
  sort_order = 1;
  rule = rule;
  image_url = none;
  active = true;
}

-- The second needs the first, which comes after it in the list; the third needs more purchases; the
-- rule of the last is broken.
abbrev pub configs : List AchievementConfig
configs =
    config "set" (achievement_set ("first" ∷ []) none)
    ∷ config "first" (count gte 1)
    ∷ config "tenth" (count gte 10)
    ∷ config "odd" AchievementRule.broken
    ∷ []

abbrev before : UnlockState
before = unlock_start [] 0

unlock_achievements_total_example :
    (s : UnlockState) × (unlock_achievements env purchase stats configs before ≡ some s)
unlock_achievements_total_example = unlock_achievements_total env purchase stats configs before

abbrev announced : String → ℕ → OutboxEvent
announced achievement n = create_outbox_event (name n) achievement_unlocked (
    achievement_event (
      create_domain_event achievement_unlocked
        (record { achievement_name = achievement; user = ada }) "c1" (name n) n))

abbrev after : UnlockState
after = record {
  existing_achievement_ids = "set" ∷ "first" ∷ [];
  broken_achievement_ids = "odd" ∷ [];
  unlocked_in_pass = false;
  saved =
      record { id = "id0"; user_id = "u1"; achievement_id = "first" }
      ∷ record { id = "id2"; user_id = "u1"; achievement_id = "set" }
      ∷ [];
  outbox = announced "first" 1 ∷ announced "set" 3 ∷ [];
  outbox_event_ids = "id1" ∷ "id3" ∷ [];
  drawn = 4;
}

before-after : unlock_achievements env purchase stats configs before ≡ some after
unfolding unlock_achievements evaluate
before-after = refl

abbrev closed : List String
closed = "set" ∷ "first" ∷ "other" ∷ []

closed-IsClosed : IsClosed env purchase stats configs configs closed
unfolding evaluate
closed-IsClosed = (λ h. refl, (λ h. refl, (λ h. cc, (λ h. cc, tt))))

unlock_achievements_least_example :
    Subset [] after.existing_achievement_ids × Subset after.existing_achievement_ids closed
unlock_achievements_least_example =
    unlock_achievements_least env purchase stats configs before after closed before-after
      (λ a h. cc) closed-IsClosed

unlock_achievements-AreRows_example : AreRows env purchase stats configs [] after
unlock_achievements-AreRows_example =
    unlock_achievements-AreRows env purchase stats configs [] 0 after before-after

abbrev badge : String → ℕ → List String → BadgeConfig
badge id n ids = record {
  id = id;
  name = id;
  description = "";
  sort_order = n;
  required_achievement_count = n;
  required_achievement_ids = ids;
  reward_amount_kobo = 30000;
  reward_currency = "NGN";
  image_url = none;
  active = true;
}

abbrev pub badges : List BadgeConfig
badges = badge "bronze" 1 [] ∷ badge "silver" 2 ("set" ∷ []) ∷ badge "gold" 3 ("a9" ∷ []) ∷ []

unlock_badges_lem_example :
    let s = unlock_badges env purchase ("set" ∷ "first" ∷ []) badges ("bronze" ∷ []) 0 in
    (map (λ (r : UserBadge). r.badge_id) s.saved
      ≡ map
          (λ (b : BadgeConfig). b.id)
          (filter (deserved ("bronze" ∷ []) ("set" ∷ "first" ∷ [])) badges))
    × Pairs (AnnouncesBadge env purchase badges) s.saved s.outbox
    × (s.outbox_event_ids ≡ map (λ (o : OutboxEvent). o.id) s.outbox)
unlock_badges_lem_example =
    unlock_badges_lem env purchase ("set" ∷ "first" ∷ []) badges ("bronze" ∷ []) 0

next_silver : next_badge badges ("bronze" ∷ []) ≡ some (badge "silver" 2 ("set" ∷ []))
unfolding next_badge
next_silver = refl

abbrev first_row : UnlockedAchievement
first_row = record {
  row = record { id = "id0"; user_id = "u1"; achievement_id = "first" };
  achievement = config "first" (count gte 1);
}

get_achievement_state_lem_example :
    let state = get_achievement_state (first_row ∷ []) configs [] badges in
    (state.next_available_achievements
      ≡ map
          (λ (c : AchievementConfig). c.name)
          (found_for
            (λ k.
              find
                (λ (d : AchievementConfig).
                  (d.group_key == k) && not (has (ids_of (first_row ∷ [])) d.id))
                configs)
            (dedup (map key_of configs))))
    × (state.unlocked_achievements
        ≡ map (λ (u : UnlockedAchievement). u.achievement.name) (first_row ∷ []))
get_achievement_state_lem_example = get_achievement_state_lem (first_row ∷ []) configs [] badges
