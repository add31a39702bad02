-- ===== src/Broker/Connection/Recovers.antt =====
-- A lost connection is always on its way back.
use mathlib.Core.Path.{subst}
use bumpa_achievement_system.Common.Powers.{from_base}
use bumpa_achievement_system.Common.{
  ℕ, ◌+◌, ◌≡◌, ◌≤◌, refl, ap, ◌∙◌, Bool, true, false, not, ◌&&◌, inl, inr, List, ◌∷◌, if◌then◌else◌,
  arith, length, All, Bool-cases,
}
use bumpa_achievement_system.Broker.Connection.{
  Connection, reconnect_delay_ms, schedule_reconnect, handle_connection_issue, timer_fired,
  setup_ended, Step, issue, fire, open_channel, end_setup, destroy, Reachable, start, next,
}

-- Unless the service is stopping: there is a timer or a run of connectAndSetup exactly while a
-- reconnect is under way, and one is under way while there is no channel.
pub record IsRecovering (s : Connection) : Type 0 where
  pub one : length s.timers + s.connecting ≡ (if s.reconnecting then 1 else 0)
  pub no_channel : s.channel ≡ false → s.reconnecting ≡ true

pub record IsSound (s : Connection) : Type 0 where
  pub recovering : s.shutting_down ≡ false → IsRecovering s
  pub in_bounds : All (λ delay. (1000 ≤ delay) × (delay ≤ 30000)) s.timers

reconnect_delay_ms_bounds : (n : ℕ) → (1000 ≤ reconnect_delay_ms n) × (reconnect_delay_ms n ≤ 30000)
unfolding reconnect_delay_ms
reconnect_delay_ms_bounds n = ground (arith, from_base 1000 n)

schedule_reconnect-IsSound :
    (s : Connection)
    → s.shutting_down ≡ false
    → length s.timers + s.connecting ≡ (if s.reconnecting then 1 else 0)
    → All (λ delay. (1000 ≤ delay) × (delay ≤ 30000)) s.timers
    → IsSound (schedule_reconnect s)
unfolding schedule_reconnect
schedule_reconnect-IsSound s on one bounds = elim (Bool-cases s.reconnecting) [
  | inl already ↦
      let h : IsSound s = record {
        recovering = λ up. record { one = one; no_channel = λ lost. already };
        in_bounds = bounds;
      } in
      simp already h
  | inr idle ↦
      simp (idle, on)
        (record {
          recovering = λ up. record { one = ground (arith, one, idle); no_channel = λ lost. refl };
          in_bounds = (reconnect_delay_ms_bounds s.reconnect_attempt, bounds);
        })
]

IsSound-if :
    (b : Bool) (x y : Connection)
    → (b ≡ true → IsSound x)
    → (b ≡ false → IsSound y)
    → IsSound (if b then x else y)
IsSound-if true x y f g = f refl
IsSound-if false x y f g = g refl

-- The run of connectAndSetup that ends was the only one, and no timer is left.
pub run_was_last :
    (s : Connection) (left : ℕ)
    → s.connecting ≡ left + 1
    → IsRecovering s
    → length s.timers + left ≡ 0
run_was_last s left e h = elim (Bool-cases s.reconnecting) [
  | inl yes_it_is ↦ ground (arith, e, h.one)
  | inr idle ↦ ground (arith, e, h.one)
]

not_both :
    (a b : Bool)
    → ((not a && not b) ≡ true → b ≡ false) × ((not a && not b) ≡ false → a ≡ false → ¬ (b ≡ false))
not_both true true = (λ h. cc, λ h k l. cc)
not_both true false = (λ h. refl, λ h k l. cc)
not_both false true = (λ h. cc, λ h k l. cc)
not_both false false = (λ h. refl, λ h k l. cc)

handle_connection_issue-IsSound : (s : Connection) → IsSound s → IsSound (handle_connection_issue s)
unfolding handle_connection_issue
handle_connection_issue-IsSound s h =
    IsSound-if s.shutting_down s (schedule_reconnect (record s { channel = false })) (λ off. h)
      (λ on.
        schedule_reconnect-IsSound (record s { channel = false }) on (h.recovering on).one
          h.in_bounds)

timer_fired-IsSound :
    (s : Connection) (delay : ℕ) (rest : List ℕ)
    → s.timers ≡ delay ∷ rest
    → IsSound s
    → IsSound (timer_fired rest s)
unfolding timer_fired
timer_fired-IsSound s delay rest e h =
    let (first, others) = subst (All (λ d. (1000 ≤ d) × (d ≤ 30000))) e h.in_bounds in
    IsSound-if s.shutting_down (record s { reconnecting = false; timers = rest })
      (record s { timers = rest; connecting = s.connecting + 1 })
      (λ off. record { recovering = λ up. cc; in_bounds = others })
      (λ on. record {
        recovering = λ up. record {
          one = omega (arith, ap length e, (h.recovering up).one);
          no_channel = (h.recovering up).no_channel;
        };
        in_bounds = others;
      })

setup_ended-IsSound :
    (s : Connection) (succeeded : Bool) (left : ℕ)
    → s.connecting ≡ left + 1
    → IsSound s
    → IsSound (setup_ended succeeded left s)
unfolding setup_ended
setup_ended-IsSound s succeeded left e h =
    let t = record s {
      reconnecting = false;
      reconnect_attempt = if succeeded then 0 else s.reconnect_attempt;
      connecting = left;
    } in
    let idle = λ (up : s.shutting_down ≡ false). run_was_last s left e (h.recovering up) in
    IsSound-if (not s.channel && not s.shutting_down) (schedule_reconnect t) t
      (λ lost.
        let on = (not_both s.channel s.shutting_down).0 lost in
        schedule_reconnect-IsSound t on (idle on) h.in_bounds)
      (λ kept. record {
        recovering = λ up. record {
          one = idle up;
          no_channel = λ gone. absurd ((not_both s.channel s.shutting_down).1 kept gone up);
        };
        in_bounds = h.in_bounds;
      })

Step-IsSound : {s t : Connection} → Step s t → IsSound s → IsSound t
Step-IsSound {s} issue h = handle_connection_issue-IsSound s h
Step-IsSound {s} (fire delay rest e) h = timer_fired-IsSound s delay rest e h
Step-IsSound {s} (open_channel left e) h = record {
  recovering = λ up. record { one = (h.recovering up).one; no_channel = λ lost. cc };
  in_bounds = h.in_bounds;
}
Step-IsSound {s} (end_setup succeeded left e) h = setup_ended-IsSound s succeeded left e h
Step-IsSound {s} destroy h = record { recovering = λ up. cc; in_bounds = tt }

pub Reachable-IsSound : (s : Connection) → Reachable s → IsSound s
Reachable-IsSound s start = record {
  recovering = λ up. record { one = omega arith; no_channel = λ lost. cc };
  in_bounds = tt;
}
Reachable-IsSound s (next {s = before} r step) = Step-IsSound step (Reachable-IsSound before r)

-- In every state that the service reaches after its first connection, in whatever order connection
-- problems, timers and runs of connectAndSetup follow each other: while it is not stopping and has no
-- channel, exactly one timer or one run of connectAndSetup is there to bring it back, and the delay of
-- a timer is between a second and half a minute.
pub lost_connection_returns :
    (s : Connection)
    → Reachable s
    → s.shutting_down ≡ false
    → s.channel ≡ false
    → (length s.timers + s.connecting ≡ 1)
      × All (λ delay. (1000 ≤ delay) × (delay ≤ 30000)) s.timers
lost_connection_returns s r up lost =
    let sound = Reachable-IsSound s r in
    let h = sound.recovering up in (h.one ∙ simp (h.no_channel lost), sound.in_bounds)
