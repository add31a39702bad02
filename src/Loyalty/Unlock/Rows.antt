-- ===== src/Loyalty/Unlock/Rows.antt =====
-- The rows that the unlock loop saves: each achievement once, and one outbox row for each.
use mathlib.Core.List.{Memᴰ, map-append}
use mathlib.Core.Path.{subst}
use bumpa_achievement_system.Common.{
  ℕ, suc, ◌≡◌, refl, inl, inr, String, Bool, true, false, Option, none, some, List, [], ◌∷◌, map,
  arith, has, All, All-concat, Pairs, none_left, Pairs-concat, has-append, NoRepeat,
  NoRepeat-concat, Bool-cases, length, ◌||◌,
}
use bumpa_achievement_system.Events.{
  Env, PurchaseCompletedEvent, DomainEvent, AchievementUnlockedPayload, achievement_unlocked,
  achievement_event, OutboxEvent, pending,
}
use bumpa_achievement_system.Loyalty.Rules.{evaluate}
use bumpa_achievement_system.Loyalty.Unlock.{
  AchievementConfig, UserAchievement, UserStats, UnlockState, unlock_start, context, unlocked_event,
  unlocked_row, unlock, settle, visit, for_configs, unlock_pass, unlock_achievements,
}
use bumpa_achievement_system.Loyalty.Unlock.Loop.{unlock_loop_last}

abbrev pub ids_of : List UserAchievement → List String
ids_of = map (λ r. r.achievement_id)

module _ (env : Env) (e : PurchaseCompletedEvent) (stats : UserStats)
    (configs : List AchievementConfig) where
  -- The outbox row announces the unlock: to the purchase's user, under its correlation id, by the
  -- name of the achievement, and it waits to be published.
  pub record Announces (r : UserAchievement) (o : OutboxEvent) : Type 0 where
    pub config : AchievementConfig
    pub listed : Memᴰ config configs
    pub unlocks : r.achievement_id ≡ config.id
    pub event : DomainEvent AchievementUnlockedPayload
    pub carries : o.payload ≡ achievement_event event
    pub names : event.payload.achievement_name ≡ config.name
    pub user : event.payload.user ≡ e.payload.user
    pub correlated : event.correlation_id ≡ e.correlation_id
    pub identified : o.id ≡ event.event_id
    pub routed : o.routing_key ≡ achievement_unlocked
    pub waits : o.status ≡ pending

  pub record AreRows (before : List String) (s : UnlockState) : Type 0 where
    pub members :
        (a : String) → has s.existing_achievement_ids a ≡ (has (ids_of s.saved) a || has before a)
    pub once : NoRepeat (ids_of s.saved)
    pub fresh : All (λ (r : UserAchievement). has before r.achievement_id ≡ false) s.saved
    pub owned : All (λ (r : UserAchievement). r.user_id ≡ e.payload.user_id) s.saved
    pub announced : Pairs Announces s.saved s.outbox
    pub listed : s.outbox_event_ids ≡ map (λ o. o.id) s.outbox

  unlock-AreRows :
      (before : List String) (c : AchievementConfig) (s : UnlockState)
      → Memᴰ c configs
      → has s.existing_achievement_ids c.id ≡ false
      → AreRows before s
      → AreRows before (unlock env e stats c s)
  unfolding unlock
  unlock-AreRows before c s m n w = record {
    members = λ a.
        simp map-append (ground (arith, w.members a, has-append (ids_of s.saved) (c.id ∷ []) a));
    once =
        simp map-append
          (NoRepeat-concat (ids_of s.saved) c.id w.once (ground (arith, w.members c.id)));
    fresh =
        All-concat (λ (r : UserAchievement). has before r.achievement_id ≡ false) s.saved w.fresh
          (ground (arith, w.members c.id));
    owned =
        All-concat (λ (r : UserAchievement). r.user_id ≡ e.payload.user_id) s.saved w.owned refl;
    announced = Pairs-concat Announces (unlocked_row env e stats c s.drawn) _ w.announced (record {
      config = c;
      listed = m;
      unlocks = refl;
      event = unlocked_event env e stats c s.drawn;
      carries = refl;
      names = refl;
      user = refl;
      correlated = refl;
      identified = refl;
      routed = refl;
      waits = refl;
    });
    listed = simp map-append (ground (arith, w.listed));
  }

  settle-AreRows :
      (before : List String) (o : Option Bool) (c : AchievementConfig) (s : UnlockState)
      → Memᴰ c configs
      → has s.existing_achievement_ids c.id ≡ false
      → AreRows before s
      → AreRows before (settle env e stats o c s)
  unfolding settle
  settle-AreRows before none c s m n w = record {
    members = w.members;
    once = w.once;
    fresh = w.fresh;
    owned = w.owned;
    announced = w.announced;
    listed = w.listed;
  }
  settle-AreRows before (some false) c s m n w = w
  settle-AreRows before (some true) c s m n w = unlock-AreRows before c s m n w

  visit-AreRows :
      (before : List String) (c : AchievementConfig) (s : UnlockState)
      → Memᴰ c configs
      → AreRows before s
      → AreRows before (visit env e stats c s)
  unfolding visit
  visit-AreRows before c s m w = elim (Bool-cases (has s.existing_achievement_ids c.id)) [
    | inl old ↦ simp old w
    | inr new ↦ elim (Bool-cases (has s.broken_achievement_ids c.id)) [
      | inl skip ↦ simp (new, skip) w
      | inr go ↦
          simp (new, go)
            (settle-AreRows before
              (evaluate c.rule (context env e stats s.existing_achievement_ids)) c s m new w)
    ]
  ]

  for_configs-AreRows :
      (before : List String) (cs : List AchievementConfig) (s : UnlockState)
      → ((c : AchievementConfig) → Memᴰ c cs → Memᴰ c configs)
      → AreRows before s
      → AreRows before (for_configs env e stats cs s)
  unfolding for_configs
  for_configs-AreRows before [] s m w = w
  for_configs-AreRows before (c ∷ cs) s m w =
      for_configs-AreRows before cs (visit env e stats c s) (λ d i. m d (Memᴰ.tail i))
        (visit-AreRows before c s (m c (Memᴰ.head refl)) w)

  unlock_pass-AreRows :
      (before : List String) (s : UnlockState)
      → AreRows before s
      → AreRows before (unlock_pass env e stats configs s)
  unfolding unlock_pass
  unlock_pass-AreRows before s w =
      for_configs-AreRows before configs (record s { unlocked_in_pass = false }) (λ c i. i)
        (record {
          members = w.members;
          once = w.once;
          fresh = w.fresh;
          owned = w.owned;
          announced = w.announced;
          listed = w.listed;
        })

  -- What the loop saves: the achievements that it adds to the unlocked set, none of them unlocked
  -- before and each once, for the purchase's user, each with one outbox row that announces it, and
  -- the identifiers of just those rows, in order, for publishing.
  pub unlock_achievements-AreRows :
      (before : List String) (drawn : ℕ) (s' : UnlockState)
      → unlock_achievements env e stats configs (unlock_start before drawn) ≡ some s'
      → AreRows before s'
  unfolding unlock_achievements
  unlock_achievements-AreRows before drawn s' h =
      let (t, p, q, f) =
        unlock_loop_last env e stats configs (AreRows before) (unlock_pass-AreRows before)
          (suc (length configs)) (unlock_start before drawn) s' h
          (record {
            members = λ a. refl;
            once = tt;
            fresh = tt;
            owned = tt;
            announced = none_left;
            listed = refl;
          }) in
      subst (AreRows before) q (unlock_pass-AreRows before t p)
