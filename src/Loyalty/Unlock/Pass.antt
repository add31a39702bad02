-- ===== src/Loyalty/Unlock/Pass.antt =====
-- One turn of the unlock loop: what it keeps, and what a turn without an unlock shows.
use mathlib.Core.List.{Memᴰ}
use bumpa_achievement_system.Common.{
  ◌≡◌, refl, ◌⊎◌, inl, inr, ◌||◌, Bool, true, false, Option, none, some, List, [], ◌∷◌, arith, has,
  Subset, Subset-false, All, Bool-cases, eq_iff, ◌∙◌,
}
use bumpa_achievement_system.Events.{Env, PurchaseCompletedEvent}
use bumpa_achievement_system.Loyalty.Rules.{evaluate}
use bumpa_achievement_system.Loyalty.Unlock.{
  AchievementConfig, UserStats, UnlockState, context, unlock, settle, visit, for_configs,
}

module _ (env : Env) (e : PurchaseCompletedEvent) (stats : UserStats) where
  -- A turn has nothing more to do for the config: it is unlocked, its rule threw, or the user does
  -- not qualify by the unlocked set.
  abbrev pub Settled : UnlockState → AchievementConfig → Type 0
  Settled s config =
      (has s.existing_achievement_ids config.id ≡ true)
      ⊎ (has s.broken_achievement_ids config.id ≡ true)
      ⊎ (evaluate config.rule (context env e stats s.existing_achievement_ids) ≡ some false)

  -- The sets only grow.
  pub record Extends (s s' : UnlockState) : Type 0 where
    pub existing : Subset s.existing_achievement_ids s'.existing_achievement_ids
    pub broken : Subset s.broken_achievement_ids s'.broken_achievement_ids
    pub quiet_before : s'.unlocked_in_pass ≡ false → s.unlocked_in_pass ≡ false
    pub quiet :
        s'.unlocked_in_pass ≡ false → s'.existing_achievement_ids ≡ s.existing_achievement_ids

  Extends-refl : (s : UnlockState) → Extends s s
  Extends-refl s = record {
    existing = λ a h. h;
    broken = λ a h. h;
    quiet_before = λ h. h;
    quiet = λ h. refl;
  }

  Extends-trans : (s t u : UnlockState) → Extends s t → Extends t u → Extends s u
  Extends-trans s t u p q = record {
    existing = λ a h. q.existing a (p.existing a h);
    broken = λ a h. q.broken a (p.broken a h);
    quiet_before = λ h. p.quiet_before (q.quiet_before h);
    quiet = λ h. q.quiet h ∙ p.quiet (q.quiet_before h);
  }

  settle-Extends :
      (o : Option Bool) (c : AchievementConfig) (s : UnlockState)
      → Extends s (settle env e stats o c s)
  unfolding settle unlock
  settle-Extends none c s = record {
    existing = λ a h. h;
    broken = λ a h. ground arith;
    quiet_before = λ h. h;
    quiet = λ h. refl;
  }
  settle-Extends (some false) c s = Extends-refl s
  settle-Extends (some true) c s = record {
    existing = λ a h. ground arith;
    broken = λ a h. h;
    quiet_before = λ h. cc;
    quiet = λ h. cc;
  }

  pub visit-Extends : (c : AchievementConfig) (s : UnlockState) → Extends s (visit env e stats c s)
  unfolding visit
  visit-Extends c s =
      elim (Bool-cases (has s.existing_achievement_ids c.id || has s.broken_achievement_ids c.id)) [
        | inl skip ↦ rw skip (Extends-refl s)
        | inr go ↦
            rw go (
              settle-Extends (evaluate c.rule (context env e stats s.existing_achievement_ids)) c s)
      ]

  pub for_configs-Extends :
      (cs : List AchievementConfig) (s : UnlockState) → Extends s (for_configs env e stats cs s)
  unfolding for_configs
  for_configs-Extends [] s = Extends-refl s
  for_configs-Extends (c ∷ cs) s =
      let t = visit env e stats c s in
      Extends-trans s t (for_configs env e stats cs t) (visit-Extends c s)
        (for_configs-Extends cs t)

  settle-Settled :
      (o : Option Bool) (c : AchievementConfig) (s : UnlockState)
      → evaluate c.rule (context env e stats s.existing_achievement_ids) ≡ o
      → Settled (settle env e stats o c s) c
  unfolding settle unlock
  settle-Settled none c s h = ground (arith, eq_iff c.id c.id)
  settle-Settled (some false) c s h = ground arith
  settle-Settled (some true) c s h = ground (arith, eq_iff c.id c.id)

  visit-Settled : (c : AchievementConfig) (s : UnlockState) → Settled (visit env e stats c s) c
  unfolding visit
  visit-Settled c s =
      elim (Bool-cases (has s.existing_achievement_ids c.id || has s.broken_achievement_ids c.id)) [
        | inl skip ↦ rw skip (ground arith)
        | inr go ↦ rw go (
            settle-Settled (evaluate c.rule (context env e stats s.existing_achievement_ids)) c s
              refl)
      ]

  -- In a turn that unlocks nothing more, what is settled stays so.
  Settled-Extends :
      (c : AchievementConfig) (s s' : UnlockState)
      → Extends s s'
      → s'.unlocked_in_pass ≡ false
      → Settled s c
      → Settled s' c
  Settled-Extends c s s' x q (inl h) = inl (x.existing c.id h)
  Settled-Extends c s s' x q (inr (inl h)) = inr (inl (x.broken c.id h))
  Settled-Extends c s s' x q (inr (inr h)) = inr (inr (rw (x.quiet q) h))

  -- A turn without an unlock has settled every config.
  pub for_configs-Settled :
      (cs : List AchievementConfig) (s : UnlockState)
      → (for_configs env e stats cs s).unlocked_in_pass ≡ false
      → All (Settled (for_configs env e stats cs s)) cs
  unfolding for_configs
  for_configs-Settled [] s q = tt
  for_configs-Settled (c ∷ cs) s q =
      let t = visit env e stats c s in
      (
        Settled-Extends c t (for_configs env e stats cs t) (for_configs-Extends cs t) q
            (visit-Settled c s),
        for_configs-Settled cs t q,
      )

  settle_news :
      (o : Option Bool) (c : AchievementConfig) (s : UnlockState)
      → s.unlocked_in_pass ≡ false
      → (settle env e stats o c s).unlocked_in_pass ≡ true
      → has (settle env e stats o c s).existing_achievement_ids c.id ≡ true
  unfolding settle unlock
  settle_news none c s f h = cc
  settle_news (some false) c s f h = cc
  settle_news (some true) c s f h = ground (arith, eq_iff c.id c.id)

  visit_news :
      (c : AchievementConfig) (s : UnlockState)
      → s.unlocked_in_pass ≡ false
      → (visit env e stats c s).unlocked_in_pass ≡ true
      → (has s.existing_achievement_ids c.id ≡ false)
        × (has (visit env e stats c s).existing_achievement_ids c.id ≡ true)
  unfolding visit
  visit_news c s f h =
      ground (
        arith,
        settle_news (evaluate c.rule (context env e stats s.existing_achievement_ids)) c s f,
      )

  -- A turn that reports an unlock has unlocked a config that was locked before.
  pub for_configs_news :
      (cs : List AchievementConfig) (s : UnlockState)
      → s.unlocked_in_pass ≡ false
      → (for_configs env e stats cs s).unlocked_in_pass ≡ true
      → (c : AchievementConfig) × Memᴰ c cs
        × (has s.existing_achievement_ids c.id ≡ false)
        × (has (for_configs env e stats cs s).existing_achievement_ids c.id ≡ true)
  unfolding for_configs
  for_configs_news [] s f h = cc
  for_configs_news (c ∷ cs) s f h =
      let t = visit env e stats c s in
      elim (Bool-cases t.unlocked_in_pass) [
        | inl now ↦
            let (before, after) = visit_news c s f now in
            (c, Memᴰ.head refl, before, (for_configs-Extends cs t).existing c.id after)
        | inr later ↦
            let (d, m, before, after) = for_configs_news cs t later h in
            (
              d,
              Memᴰ.tail m,
              Subset-false s.existing_achievement_ids t.existing_achievement_ids
                  (visit-Extends c s).existing d.id before,
              after,
            )
      ]
