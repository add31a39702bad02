-- ===== src/Loyalty/Unlock.antt =====
-- apps/loyalty-service/src/loyalty/loyalty.service.ts: the loop of `handlePurchaseCompleted` that
-- unlocks achievements, over the rows that the transaction has read. `Set` is a list of its members.
pub mod Pass
pub mod Loop
pub mod Rows
use bumpa_achievement_system.Common.{
  ℕ, zero, suc, ◌+◌, String, Bool, true, false, ◌||◌, Option, none, some, List, [], ◌∷◌, ◌++◌,
  if◌then◌else◌, has, length,
}
use bumpa_achievement_system.Events.{
  DomainEvent, AchievementUnlockedPayload, Env, user_achievement, event, achievement_unlocked,
  achievement_event, PurchaseCompletedEvent, create_domain_event, OutboxEvent, create_outbox_event,
}
use bumpa_achievement_system.Loyalty.Rules.{AchievementRule, RuleContext, evaluate}

-- entities/achievement-config.entity.ts
pub record AchievementConfig : Type 0 where
  pub id : String
  pub name : String
  pub description : String
  pub group_key : String
  pub sort_order : ℕ
  pub rule : AchievementRule
  pub image_url : Option String
  pub active : Bool

-- entities/user-achievement.entity.ts
pub record UserAchievement : Type 0 where
  pub id : String
  pub user_id : String
  pub achievement_id : String

-- entities/user-stats.entity.ts
pub record UserStats : Type 0 where
  pub user_id : String
  pub purchase_count : ℕ
  pub total_spend_kobo : ℕ

-- The loop's variables, the rows that it has saved, in order, and the identifiers drawn so far.
pub record UnlockState : Type 0 where
  pub existing_achievement_ids : List String
  pub broken_achievement_ids : List String
  pub unlocked_in_pass : Bool
  pub saved : List UserAchievement
  pub outbox : List OutboxEvent
  pub outbox_event_ids : List String
  pub drawn : ℕ

-- Before the loop.
abbrev pub unlock_start : List String → ℕ → UnlockState
unlock_start existing drawn = record {
  existing_achievement_ids = existing;
  broken_achievement_ids = [];
  unlocked_in_pass = false;
  saved = [];
  outbox = [];
  outbox_event_ids = [];
  drawn = drawn;
}

module _ (env : Env) (e : PurchaseCompletedEvent) (stats : UserStats) where
  -- What the rules are evaluated against, for a set of unlocked achievements.
  abbrev pub context : List String → RuleContext
  context unlocked = record {
    purchase_count = stats.purchase_count;
    total_spend_kobo = stats.total_spend_kobo;
    unlocked_achievement_ids = some unlocked;
  }

  abbrev pub unlocked_event : AchievementConfig → ℕ → DomainEvent AchievementUnlockedPayload
  unlocked_event config drawn =
      create_domain_event achievement_unlocked
        (record { achievement_name = config.name; user = e.payload.user }) e.correlation_id
        (env.create_readable_id event (drawn + 1)) (env.now (drawn + 1))

  abbrev pub unlocked_row : AchievementConfig → ℕ → UserAchievement
  unlocked_row config drawn = record {
    id = env.create_readable_id user_achievement drawn;
    user_id = e.payload.user_id;
    achievement_id = config.id;
  }

  -- Save the unlock and the outbox row that announces it.
  pub unlock : AchievementConfig → UnlockState → UnlockState
  unlock config s =
      let announced = unlocked_event config s.drawn in
      record s {
        existing_achievement_ids = config.id ∷ s.existing_achievement_ids;
        unlocked_in_pass = true;
        saved = s.saved ++ unlocked_row config s.drawn ∷ [];
        outbox =
            s.outbox
            ++ create_outbox_event announced.event_id announced.type (achievement_event announced)
              ∷ [];
        outbox_event_ids = s.outbox_event_ids ++ announced.event_id ∷ [];
        drawn = s.drawn + 2;
      }

  -- The branches on the evaluation: it threw, it said no, it said yes.
  pub settle : Option Bool → AchievementConfig → UnlockState → UnlockState
  settle none config s = record s { broken_achievement_ids = config.id ∷ s.broken_achievement_ids }
  settle (some false) config s = s
  settle (some true) config s = unlock config s

  -- The body of the `for` loop.
  pub visit : AchievementConfig → UnlockState → UnlockState
  unfolding unlock settle
  visit config s =
      if has s.existing_achievement_ids config.id || has s.broken_achievement_ids config.id
      then s
      else settle (evaluate config.rule (context s.existing_achievement_ids)) config s

  pub for_configs : List AchievementConfig → UnlockState → UnlockState
  for_configs [] s = s
  for_configs (config ∷ configs) s = for_configs configs (visit config s)

  -- One turn of the `do … while (unlockedInPass)`.
  pub unlock_pass : List AchievementConfig → UnlockState → UnlockState
  unlock_pass configs s = for_configs configs (record s { unlocked_in_pass = false })

  -- The loop with fuel; `none` if the fuel runs out.
  pub unlock_loop : ℕ → List AchievementConfig → UnlockState → Option UnlockState
  unlock_loop zero configs s = none
  unlock_loop (suc fuel) configs s =
      let s' = unlock_pass configs s in
      let again = unlock_loop fuel configs s' in if s'.unlocked_in_pass then again else some s'

  -- The loop, with a turn for each config and one more.
  unfoldable pub unlock_achievements : List AchievementConfig → UnlockState → Option UnlockState
  unfolding visit for_configs unlock_pass unlock_loop
  unlock_achievements configs s = unlock_loop (suc (length configs)) configs s
