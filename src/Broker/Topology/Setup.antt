-- ===== src/Broker/Topology/Setup.antt =====
-- What a run of connectAndSetup leaves behind.
use bumpa_achievement_system.Common.{
  ◌≡◌, ◌⊎◌, refl, sym, ap, ◌∙◌, ℕ, ◌+◌, ◌<◌, Bool, true, false, some, List, [], ◌∷◌, ◌++◌, length,
  arith, if◌then◌else◌, All, Bool-cases, inl, inr,
}
use mathlib.Core.Path.{subst}
use bumpa_achievement_system.Broker.Connection.{
  Connection, setup_ended, schedule_reconnect, Reachable,
}
use bumpa_achievement_system.Broker.Connection.Recovers.{run_was_last, Reachable-IsSound}
use bumpa_achievement_system.Broker.Topology.{
  Subscription, BrokerCall, assert_queue, bind_queue, consume, events_exchange,
  dead_letter_exchange, dead_letter_queue, retry_queue, bind_and_consume, open_calls, bind_all,
  Made, SetUp, make, connect_and_setup,
}

-- A call stands in the list.
pub data Among (c : BrokerCall) : List BrokerCall → Type 0 where
  here : {cs : List BrokerCall} → Among c (c ∷ cs)
  there : {d : BrokerCall} {cs : List BrokerCall} → Among c cs → Among c (d ∷ cs)

Among-right : (c : BrokerCall) (xs ys : List BrokerCall) → Among c ys → Among c (xs ++ ys)
Among-right c [] ys h = h
Among-right c (x ∷ xs) ys h = there (Among-right c xs ys h)

-- The events of the key reach the queue, which is consumed; what it rejects goes to its dead-letter
-- queue, and what waits in its retry queue comes back to it.
pub record IsWired (calls : List BrokerCall) (s : Subscription) : Type 0 where
  pub reached : Among (bind_queue s.queue events_exchange s.routing_key) calls
  pub consumed : Among (consume s.queue) calls
  pub rejects : Among (assert_queue s.queue (some (dead_letter_exchange, s.routing_key))) calls
  pub buried :
      Among (bind_queue (dead_letter_queue s.queue) dead_letter_exchange s.routing_key) calls
  pub returns : Among (assert_queue (retry_queue s.queue) (some ("", s.queue))) calls

bind_and_consume-IsWired :
    (s : Subscription) (rest : List BrokerCall) → IsWired (bind_and_consume s ++ rest) s
unfolding bind_and_consume
bind_and_consume-IsWired s rest = record {
  buried = there here;
  returns = there (there here);
  rejects = there (there (there here));
  reached = there (there (there (there here)));
  consumed = there (there (there (there (there (there here)))));
}

IsWired-right : (xs ys : List BrokerCall) (s : Subscription) → IsWired ys s → IsWired (xs ++ ys) s
IsWired-right xs ys s h = record {
  reached = Among-right _ xs ys h.reached;
  consumed = Among-right _ xs ys h.consumed;
  rejects = Among-right _ xs ys h.rejects;
  buried = Among-right _ xs ys h.buried;
  returns = Among-right _ xs ys h.returns;
}

All-right :
    (xs ys : List BrokerCall) (ss : List Subscription)
    → All (IsWired ys) ss
    → All (IsWired (xs ++ ys)) ss
All-right xs ys [] h = tt
All-right xs ys (s ∷ ss) (h, hs) = (IsWired-right xs ys s h, All-right xs ys ss hs)

bind_all-IsWired : (ss : List Subscription) → All (IsWired (bind_all ss)) ss
unfolding bind_all
bind_all-IsWired [] = tt
bind_all-IsWired (s ∷ ss) = (
  bind_and_consume-IsWired s (bind_all ss),
  All-right (bind_and_consume s) (bind_all ss) ss (bind_all-IsWired ss),
)

module _ (takes : ℕ → Bool) where
  make_all :
      (n : ℕ) (cs : List BrokerCall)
      → (make takes n cs).all_made ≡ true
      → (make takes n cs).calls ≡ cs
  unfolding make
  make_all n [] h = refl
  make_all n (c ∷ cs) h = elim (Bool-cases (takes n)) [
    | inl y ↦ simp y (ap (λ r. c ∷ r) (make_all (n + 1) cs (simp y at h)))
    | inr z ↦ cc (simp z at h)
  ]

  make_fewer :
      (n : ℕ) (cs : List BrokerCall)
      → (make takes n cs).all_made ≡ false
      → length (make takes n cs).calls < length cs
  unfolding make
  make_fewer n [] h = cc h
  make_fewer n (c ∷ cs) h = elim (Bool-cases (takes n)) [
    | inl y ↦ simp y (ground (arith, make_fewer (n + 1) cs (simp y at h)))
    | inr z ↦ simp z (omega arith)
  ]

-- The end of a run from the timer: with a channel nothing is scheduled, without one a timer is.
ended_with_channel :
    (s : Connection) (succeeded : Bool) (left : ℕ)
    → Reachable s
    → s.shutting_down ≡ false
    → s.connecting ≡ left + 1
    → s.channel ≡ true
    → let t = setup_ended succeeded left s in
      (length t.timers + t.connecting ≡ 0)
      × (t.reconnect_attempt ≡ (if succeeded then 0 else s.reconnect_attempt))
unfolding setup_ended
ended_with_channel s succeeded left r up e has_channel =
    simp (has_channel, up) (run_was_last s left e ((Reachable-IsSound s r).recovering up), refl)

ended_without_channel :
    (s : Connection) (left : ℕ)
    → Reachable s
    → s.shutting_down ≡ false
    → s.connecting ≡ left + 1
    → s.channel ≡ false
    → length (setup_ended false left s).timers ≡ 1
unfolding setup_ended schedule_reconnect
ended_without_channel s left r up e lost =
    let last = run_was_last s left e ((Reachable-IsSound s r).recovering up) in
    simp (lost, up) (omega (arith, last))

-- How a run of connectAndSetup may end, for the service and its reconnects.
abbrev pub Ends : List Subscription → Connection → ℕ → SetUp → Type 0
Ends subscriptions s left run =
    let t = setup_ended run.all_made left s in
    (All (IsWired run.calls) subscriptions × (t.reconnect_attempt ≡ 0))
    ⊎ ((run.channel ≡ false) × (length t.timers ≡ 1))
    ⊎ ((length run.calls < length (open_calls ++ bind_all subscriptions))
        × (length t.timers + t.connecting ≡ 0))

module _ (takes : ℕ → Bool) (subscriptions : List Subscription) (s : Connection) (left : ℕ)
    (r : Reachable s) (up : s.shutting_down ≡ false) (e : s.connecting ≡ left + 1) where
  abbrev bound : Made
  bound = make takes 4 (bind_all subscriptions)

  bound-Ends :
      s.channel ≡ true
      → Ends subscriptions s left
          (record { channel = true; calls = open_calls ++ bound.calls; all_made = bound.all_made })
  bound-Ends has_channel = elim (Bool-cases bound.all_made) [
    | inl complete ↦
        let (_, attempts) = ended_with_channel s true left r up e has_channel in
        inl (
          subst (λ cs. All (IsWired (open_calls ++ cs)) subscriptions)
              (sym (make_all takes 4 (bind_all subscriptions) complete))
              (All-right open_calls (bind_all subscriptions) subscriptions
                (bind_all-IsWired subscriptions)),
          subst (λ b. (setup_ended b left s).reconnect_attempt ≡ 0) (sym complete) attempts,
        )
    | inr not_all ↦
        let (idle, _) = ended_with_channel s bound.all_made left r up e has_channel in
        let fewer = make_fewer takes 4 (bind_all subscriptions) not_all in
        inr (inr (omega (arith, fewer), idle))
  ]

  -- A run of connectAndSetup, in a service that is not stopping, ends in one of three ways, if the
  -- channel is at its end as the run has left it. All its calls succeeded: every subscription is bound
  -- and consumed, and the count of attempts is back at zero. It has no channel: there is a timer for the
  -- next attempt. Or it has the channel but not all its calls: there is no timer and no run, so that
  -- nothing makes the calls that are missing.
  pub connect_and_setup-Ends :
      s.channel ≡ (connect_and_setup takes subscriptions).channel
      → Ends subscriptions s left (connect_and_setup takes subscriptions)
  unfolding connect_and_setup
  connect_and_setup-Ends c = elim (Bool-cases (make takes 0 open_calls).all_made) [
    | inl opened ↦
        let run : connect_and_setup takes subscriptions ≡ record {
          channel = true;
          calls = open_calls ++ bound.calls;
          all_made = bound.all_made;
        } =
          simp (opened, make_all takes 0 open_calls opened) refl in
        subst (Ends subscriptions s left) (sym run)
          (bound-Ends (c ∙ ap (λ (x : SetUp). x.channel) run))
    | inr closed ↦
        let run : connect_and_setup takes subscriptions ≡ record {
          channel = false;
          calls = (make takes 0 open_calls).calls;
          all_made = false;
        } =
          simp closed refl in
        subst (Ends subscriptions s left) (sym run) (
          inr (
            inl
              (refl, ended_without_channel s left r up e (c ∙ ap (λ (x : SetUp). x.channel) run))))
  ]
