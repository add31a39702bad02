-- ===== src/Broker/Topology.antt =====
-- packages/broker-sdk/src/broker.service.ts: `subscribe`, `bindAndConsume` and `connectAndSetup`, as
-- the calls that they make of RabbitMQ, one after the other. `takes n` tells whether the n-th call
-- succeeds; the first that does not ends the run, which then throws.
pub mod Setup
use bumpa_achievement_system.Common.{
  ℕ, ◌+◌, String, Bool, true, false, not, ◌&&◌, ◌||◌, Option, none, some, List, [], ◌∷◌, ◌++◌,
  if◌then◌else◌, concat_text,
}

-- BrokerSubscriptionOptions, less the handler.
pub record Subscription : Type 0 where
  pub queue : String
  pub routing_key : String

-- BrokerExchange
abbrev pub events_exchange : String
events_exchange = "bumpa.events"

abbrev pub dead_letter_exchange : String
dead_letter_exchange = "bumpa.events.dlx"

-- A queue is declared with the exchange and the key under which its dead letters go out, if any.
pub data BrokerCall : Type 0 where
  connect : BrokerCall
  create_confirm_channel : BrokerCall
  assert_exchange : String → BrokerCall
  assert_queue : String → Option (String × String) → BrokerCall
  bind_queue : (queue exchange routing_key : String) → BrokerCall
  prefetch : ℕ → BrokerCall
  consume : String → BrokerCall

abbrev pub dead_letter_queue : String → String
dead_letter_queue q = concat_text q ".dlq"

abbrev pub retry_queue : String → String
retry_queue q = concat_text q ".retry"

-- bindAndConsume
unfoldable pub bind_and_consume : Subscription → List BrokerCall
bind_and_consume s =
    assert_queue (dead_letter_queue s.queue) none
    ∷ bind_queue (dead_letter_queue s.queue) dead_letter_exchange s.routing_key
    ∷ assert_queue (retry_queue s.queue) (some ("", s.queue))
    ∷ assert_queue s.queue (some (dead_letter_exchange, s.routing_key))
    ∷ bind_queue s.queue events_exchange s.routing_key
    ∷ prefetch 10
    ∷ consume s.queue
    ∷ []

-- The calls of connectAndSetup before it sets `this.channel`, and after.
abbrev pub open_calls : List BrokerCall
open_calls =
    connect
    ∷ create_confirm_channel
    ∷ assert_exchange events_exchange
    ∷ assert_exchange dead_letter_exchange
    ∷ []

unfoldable pub bind_all : List Subscription → List BrokerCall
unfolding bind_and_consume
bind_all [] = []
bind_all (s ∷ subscriptions) = bind_and_consume s ++ bind_all subscriptions

-- The calls that succeeded, and whether all did.
pub record Made : Type 0 where
  pub calls : List BrokerCall
  pub all_made : Bool

-- What a run of connectAndSetup leaves: whether it has set the channel, and its calls.
pub record SetUp : Type 0 where
  pub channel : Bool
  pub calls : List BrokerCall
  pub all_made : Bool

module _ (takes : ℕ → Bool) where
  unfoldable pub make : ℕ → List BrokerCall → Made
  make n [] = record { calls = []; all_made = true }
  make n (c ∷ cs) =
      let rest = make (n + 1) cs in
      if takes n
      then record { calls = c ∷ rest.calls; all_made = rest.all_made }
      else record { calls = []; all_made = false }

  unfoldable pub connect_and_setup : List Subscription → SetUp
  unfolding make bind_all
  connect_and_setup subscriptions =
      let opened = make 0 open_calls in
      let bound = make 4 (bind_all subscriptions) in
      if opened.all_made
      then record { channel = true; calls = opened.calls ++ bound.calls; all_made = bound.all_made }
      else record { channel = false; calls = opened.calls; all_made = false }

-- A service with its registered subscriptions and the calls made on the current channel. `subscribe`
-- registers first, and then binds, on the channel if there is one.
pub record Subscriptions : Type 0 where
  pub subscriptions : List Subscription
  pub calls : List BrokerCall

unfoldable pub subscribe :
    (takes : ℕ → Bool) (channel : Bool) → Subscription → Subscriptions → Subscriptions × Bool
unfolding make bind_and_consume
subscribe takes channel options s =
    let registered = s.subscriptions ++ options ∷ [] in
    let bound = make takes 0 (bind_and_consume options) in
    if channel
    then (record { subscriptions = registered; calls = s.calls ++ bound.calls }, bound.all_made)
    else (record s { subscriptions = registered }, false)
