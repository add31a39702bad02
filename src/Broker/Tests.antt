-- ===== src/Broker/Tests.antt =====
-- A message that is retried, and a connection that is lost.
use mathlib.Core.Path.{subst}
use bumpa_achievement_system.Common.{
  ℕ, ◌+◌, ◌≡◌, ◌≤◌, refl, String, Bool, true, false, none, some, [], ◌∷◌, if◌then◌else◌, length,
  All, leb, List, nat_eq, not,
}
use bumpa_achievement_system.Broker.Consume.{Message}
use bumpa_achievement_system.Broker.Consume.Settled.{
  handled, dead, one_returned, consume, consume_ends,
}
use bumpa_achievement_system.Broker.Connection.{
  Connection, connected, handle_connection_issue, schedule_reconnect, reconnect_delay_ms, Reachable,
  start, next, issue, fire, open_channel, timer_fired,
}
use bumpa_achievement_system.Broker.Connection.Recovers.{lost_connection_returns}
use bumpa_achievement_system.Broker.Topology.{
  Subscription, bind_all, make, connect_and_setup, bind_and_consume,
}
use bumpa_achievement_system.Broker.Topology.Setup.{Ends, connect_and_setup-Ends}

abbrev message : Message String
message = record { content = some "e1"; retry_count = none }

-- The third run returns.
abbrev third : ℕ → String → Bool
third n e = leb 2 n

consume_ends_example :
    consume String 6 third 0 message
    ≡ some (if one_returned 5 (λ i. third i "e1") 0 then handled else dead)
consume_ends_example = consume_ends String third 0 message "e1" refl refl

abbrev lost : Connection
lost = record connected {
  channel = false;
  reconnecting = true;
  reconnect_attempt = 1;
  timers = 1000 ∷ [];
}

lost-Reachable : Reachable (handle_connection_issue connected)
lost-Reachable = next start issue

loses : handle_connection_issue connected ≡ lost
unfolding handle_connection_issue schedule_reconnect reconnect_delay_ms
loses = refl

lost_connection_returns_example :
    (length lost.timers + lost.connecting ≡ 1)
    × All (λ delay. (1000 ≤ delay) × (delay ≤ 30000)) lost.timers
lost_connection_returns_example =
    lost_connection_returns lost (subst Reachable loses lost-Reachable) refl refl

-- The timer has fired, and the run has made its channel.
abbrev connecting : Connection
connecting = record lost { channel = true; timers = []; connecting = 1 }

fires : timer_fired [] lost ≡ record lost { timers = []; connecting = 1 }
unfolding timer_fired
fires = refl

connecting-Reachable : Reachable connecting
connecting-Reachable =
    next
      (subst Reachable fires
        (next (subst Reachable loses lost-Reachable) (fire {s = lost} 1000 [] refl)))
      (open_channel {s = record lost { timers = []; connecting = 1 }} 0 refl)

abbrev subscriptions : List Subscription
subscriptions =
    record { queue = "loyalty.purchase-completed"; routing_key = "purchase.completed" } ∷ []

-- The call that would declare the retry queue fails.
abbrev takes : ℕ → Bool
takes n = not (nat_eq n 6)

two_are_made : length (connect_and_setup takes subscriptions).calls ≡ 6
unfolding connect_and_setup make bind_all bind_and_consume
two_are_made = refl

connect_and_setup-Ends_example :
    Ends subscriptions connecting 0 (connect_and_setup takes subscriptions)
unfolding connect_and_setup make
connect_and_setup-Ends_example =
    connect_and_setup-Ends takes subscriptions connecting 0 connecting-Reachable refl refl refl
