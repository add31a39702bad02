-- ===== src/Loyalty/Unlock/Loop.antt =====
-- The unlock loop as a whole: it ends, and it computes the least set closed under the rules.
use mathlib.Core.Path.{subst}
use bumpa_achievement_system.Common.{
  ℕ, zero, suc, ◌<◌, ◌≡◌, refl, inl, inr, String, Bool, true, false, Option, none, some, List, [],
  ◌∷◌, arith, has, Subset, All, Bool-cases, eq_iff, length, remaining, remaining_lt,
  remaining-le-length, ◌||◌,
}
use bumpa_achievement_system.Events.{Env, PurchaseCompletedEvent}
use bumpa_achievement_system.Loyalty.Rules.{evaluate}
use bumpa_achievement_system.Loyalty.Rules.Monotone.{Grows, evaluate_mono}
use bumpa_achievement_system.Loyalty.Unlock.{
  AchievementConfig, UserStats, UnlockState, context, unlock, settle, visit, for_configs,
  unlock_pass, unlock_loop, unlock_achievements,
}
use bumpa_achievement_system.Loyalty.Unlock.Pass.{
  Settled, for_configs-Extends, for_configs-Settled, for_configs_news,
}

module _ (env : Env) (e : PurchaseCompletedEvent) (stats : UserStats)
    (configs : List AchievementConfig) where
  -- How many configs are locked.
  abbrev locked : UnlockState → ℕ
  locked s = remaining (λ (c : AchievementConfig). c.id) configs s.existing_achievement_ids

  unlock_pass-locked :
      (s : UnlockState)
      → (unlock_pass env e stats configs s).unlocked_in_pass ≡ true
      → locked (unlock_pass env e stats configs s) < locked s
  unfolding unlock_pass
  unlock_pass-locked s h =
      let s0 = record s { unlocked_in_pass = false } in
      let (c, m, before, after) = for_configs_news env e stats configs s0 refl h in
      remaining_lt (λ (d : AchievementConfig). d.id) configs s.existing_achievement_ids
        (for_configs env e stats configs s0).existing_achievement_ids c
        (for_configs-Extends env e stats configs s0).existing m before after

  -- With more fuel than locked configs the loop ends by its test.
  unlock_loop_total :
      (fuel : ℕ) (s : UnlockState)
      → locked s < fuel
      → (s' : UnlockState) × (unlock_loop env e stats fuel configs s ≡ some s')
  unfolding unlock_loop
  unlock_loop_total zero s h = absurd (omega arith)
  unlock_loop_total (suc fuel) s h =
      let s' = unlock_pass env e stats configs s in
      elim (Bool-cases s'.unlocked_in_pass) [
        | inl again ↦
            simp again (unlock_loop_total fuel s' (omega (arith, unlock_pass-locked s again)))
        | inr done ↦ (s', simp done)
      ]

  -- The loop ends after at most one turn for each active config and one more: a further turn is made
  -- only after a turn that unlocked something.
  pub unlock_achievements_total :
      (s : UnlockState) → (s' : UnlockState) × (unlock_achievements env e stats configs s ≡ some s')
  unfolding unlock_achievements
  unlock_achievements_total s = unlock_loop_total (suc (length configs)) s (
      omega (
        arith,
        remaining-le-length (λ (c : AchievementConfig). c.id) configs s.existing_achievement_ids,
      ))

  unlock_pass-Settled :
      (s : UnlockState)
      → (unlock_pass env e stats configs s).unlocked_in_pass ≡ false
      → All (Settled env e stats (unlock_pass env e stats configs s)) configs
  unfolding unlock_pass
  unlock_pass-Settled s h =
      for_configs-Settled env e stats configs (record s { unlocked_in_pass = false }) h

  -- What each turn keeps holds before the last turn, which unlocks nothing.
  pub unlock_loop_last {κ} :
      (P : UnlockState → Type κ)
      → ((t : UnlockState) → P t → P (unlock_pass env e stats configs t))
      → (fuel : ℕ) (s s' : UnlockState) → unlock_loop env e stats fuel configs s ≡ some s'
      → P s
      → (t : UnlockState) × P t
        × (unlock_pass env e stats configs t ≡ s')
        × ((unlock_pass env e stats configs t).unlocked_in_pass ≡ false)
  unfolding unlock_loop
  unlock_loop_last P keep zero s s' h p = cc
  unlock_loop_last P keep (suc fuel) s s' h p =
      let u = unlock_pass env e stats configs s in
      elim (Bool-cases u.unlocked_in_pass) [
        | inl again ↦ unlock_loop_last P keep fuel u s' (ground arith) (keep s p)
        | inr done ↦ (s, p, ground arith, done)
      ]

  -- When the loop ends, nothing is left to unlock: each active config is unlocked, or its rule threw,
  -- or the user does not qualify by the final set.
  pub unlock_achievements-Settled :
      (s s' : UnlockState)
      → unlock_achievements env e stats configs s ≡ some s'
      → All (Settled env e stats s') configs
  unfolding unlock_achievements
  unlock_achievements-Settled s s' h =
      let (t, p, q, f) =
        unlock_loop_last (λ t. Unit {0}) (λ t p. tt) (suc (length configs)) s s' h tt in
      subst (λ u. All (Settled env e stats u) configs) q (unlock_pass-Settled t f)

  abbrev pub IsClosed : List AchievementConfig → List String → Type 0
  IsClosed cs set =
      All
        (λ (c : AchievementConfig).
          evaluate c.rule (context env e stats set) ≡ some true → has set c.id ≡ true)
        cs

  settle-Subset :
      (o : Option Bool) (c : AchievementConfig) (s : UnlockState) (set : List String)
      → (o ≡ some true → has set c.id ≡ true)
      → Subset s.existing_achievement_ids set
      → Subset (settle env e stats o c s).existing_achievement_ids set
  unfolding settle unlock
  settle-Subset none c s set h k = k
  settle-Subset (some false) c s set h k = k
  settle-Subset (some true) c s set h k = λ a i. ground (arith, eq_iff c.id a, k a, h refl)

  visit-Subset :
      (c : AchievementConfig) (s : UnlockState) (set : List String)
      → (evaluate c.rule (context env e stats set) ≡ some true → has set c.id ≡ true)
      → Subset s.existing_achievement_ids set
      → Subset (visit env e stats c s).existing_achievement_ids set
  unfolding visit
  visit-Subset c s set h k =
      let now = context env e stats s.existing_achievement_ids in
      let later = context env e stats set in
      let grows : Grows now later = record {
        purchases = omega arith;
        spend = omega arith;
        unlocked = k;
      } in
      let settled =
        settle-Subset (evaluate c.rule now) c s set
          (λ (q : evaluate c.rule now ≡ some true). h (evaluate_mono now later c.rule grows q)) k in
      elim (Bool-cases (has s.existing_achievement_ids c.id || has s.broken_achievement_ids c.id)) [
        | inl skip ↦ simp skip k
        | inr go ↦ simp go settled
      ]

  for_configs-Subset :
      (cs : List AchievementConfig) (s : UnlockState) (set : List String)
      → IsClosed cs set
      → Subset s.existing_achievement_ids set
      → Subset (for_configs env e stats cs s).existing_achievement_ids set
  unfolding for_configs
  for_configs-Subset [] s set h k = k
  for_configs-Subset (c ∷ cs) s set h k =
      for_configs-Subset cs (visit env e stats c s) set h.1 (visit-Subset c s set h.0 k)

  unlock_pass-Subset :
      (set : List String) (s : UnlockState)
      → IsClosed configs set
      → Subset s.existing_achievement_ids set
      → Subset (unlock_pass env e stats configs s).existing_achievement_ids set
  unfolding unlock_pass
  unlock_pass-Subset set s h k =
      for_configs-Subset configs (record s { unlocked_in_pass = false }) set h k

  unlock_pass-grows :
      (s : UnlockState)
      → Subset s.existing_achievement_ids
          (unlock_pass env e stats configs s).existing_achievement_ids
  unfolding unlock_pass
  unlock_pass-grows s =
      (for_configs-Extends env e stats configs (record s { unlocked_in_pass = false })).existing

  -- The unlocked set that the loop computes keeps what was unlocked before, and is within every set
  -- that holds that and is closed under the rules of the active configs: what is added is only what
  -- the rules give, in whichever order the configs are listed.
  pub unlock_achievements_least :
      (s s' : UnlockState) (set : List String)
      → unlock_achievements env e stats configs s ≡ some s'
      → Subset s.existing_achievement_ids set
      → IsClosed configs set
      → Subset s.existing_achievement_ids s'.existing_achievement_ids
        × Subset s'.existing_achievement_ids set
  unfolding unlock_achievements
  unlock_achievements_least s s' set h k closed = (
    let P = λ (t : UnlockState). Subset s.existing_achievement_ids t.existing_achievement_ids in
        let keep =
          λ (t : UnlockState) (p : P t) (a : String) (i : has s.existing_achievement_ids a ≡ true).
            unlock_pass-grows t a (p a i) in
        let (t, p, q, f) = unlock_loop_last P keep (suc (length configs)) s s' h (λ a i. i) in
        subst P q (keep t p),
    let P = λ (t : UnlockState). Subset t.existing_achievement_ids set in
        let keep = λ (t : UnlockState) (p : P t). unlock_pass-Subset set t closed p in
        let (t, p, q, f) = unlock_loop_last P keep (suc (length configs)) s s' h k in
        subst P q (keep t p),
  )
