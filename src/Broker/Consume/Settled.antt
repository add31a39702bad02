-- ===== src/Broker/Consume/Settled.antt =====
-- A message is handled a bounded number of times, and then settled.
use Prim.Native.Nat.{suc, zero}
use bumpa_achievement_system.Common.{
  ℕ, ◌+◌, ◌≡◌, Bool, true, false, ◌||◌, Option, none, some, List, [], ◌∷◌, if◌then◌else◌, leb,
  arith, Bool-cases, inl, inr,
}
use bumpa_achievement_system.Broker.Consume.{
  Message, Settlements, read_retry_count, safe_ack, safe_nack, schedule_redelivery,
  settle_scheduled, retry_or_dead_letter, handle_event, handle_message,
}

-- How a message ends: acknowledged by the run that handled it, dead-lettered, or astray (a run has
-- settled it twice or not at all, or has settled it and also put more than one copy on the retry queue).
pub data Ending : Type 0 where
  handled dead astray : Ending

-- A channel that takes every call.
abbrev pub always : ℕ → Bool
always n = true

-- One of the runs n, …, n + k returned.
pub one_returned : ℕ → (ℕ → Bool) → ℕ → Bool
one_returned zero returned n = returned n
one_returned (suc k) returned n = let later = one_returned k returned (n + 1) in returned n || later

module _ (E : Type 0) where
  abbrev pub unsettled : Settlements E
  unsettled = record { acked = []; dead_lettered = []; delayed = []; calls = 0 }

  -- What follows from what a run has acknowledged, dead-lettered and put on the retry queue. RabbitMQ
  -- delivers the message of the retry queue again, for which `later` is the ending.
  follow :
      List (Message E)
      → List (Message E)
      → List (Message E × ℕ)
      → (Message E → Option Ending)
      → Option Ending
  follow (a ∷ []) [] [] later = some handled
  follow (a ∷ []) [] ((m, delay) ∷ []) later = later m
  follow [] (d ∷ []) [] later = some dead
  follow acked dead_lettered delayed later = some astray

  -- The runs of a message, at most as many as the first argument; `handler n e` tells whether the run
  -- number n of the handler returns on the event. `none` if there are more.
  pub consume : ℕ → (ℕ → E → Bool) → ℕ → Message E → Option Ending
  unfolding follow
  consume zero handler n m = none
  consume (suc fuel) handler n m =
      let later = consume fuel handler (n + 1) in
      let s = handle_message always (handler n) m unsettled in
      follow s.acked s.dead_lettered s.delayed later

  consume-step :
      (fuel : ℕ) (handler : ℕ → E → Bool) (n : ℕ) (m : Message E) (e : E)
      → m.content ≡ some e
      → consume (suc fuel) handler n m ≡ (
          if handler n e
          then some handled
          else if leb 5 (read_retry_count m.retry_count)
          then some dead
          else consume fuel handler
              (n + 1)
              (record m { retry_count = some (read_retry_count m.retry_count + 1) }))
  unfolding consume follow handle_message handle_event safe_ack safe_nack retry_or_dead_letter
      settle_scheduled schedule_redelivery
  consume-step fuel handler n m e h = elim (Bool-cases (handler n e)) [
    | inl returned ↦ simp (h, returned)
    | inr threw ↦ elim (Bool-cases (leb 5 (read_retry_count m.retry_count))) [
      | inl spent ↦ simp (h, threw, spent)
      | inr left ↦ simp (h, threw, left)
    ]
  ]

  consume-count :
      (k : ℕ) (handler : ℕ → E → Bool) (n : ℕ) (m : Message E) (e : E)
      → m.content ≡ some e
      → read_retry_count m.retry_count + k ≡ 5
      → consume (suc k) handler n m
        ≡ some (if one_returned k (λ i. handler i e) n then handled else dead)
  unfolding one_returned
  consume-count zero handler n m e h c =
      let spent : leb 5 (read_retry_count m.retry_count) ≡ true = ground (arith, c) in
      elim (Bool-cases (handler n e)) [
        | inl returned ↦ simp (consume-step zero handler n m e h, returned)
        | inr threw ↦ simp (consume-step zero handler n m e h, threw, spent)
      ]
  consume-count (suc k) handler n m e h c =
      let left : leb 5 (read_retry_count m.retry_count) ≡ false = ground (arith, c) in
      let next = record m { retry_count = some (read_retry_count m.retry_count + 1) } in
      elim (Bool-cases (handler n e)) [
        | inl returned ↦ simp (consume-step (suc k) handler n m e h, returned)
        | inr threw ↦
            simp (consume-step (suc k) handler n m e h, threw, left)
              (consume-count k handler (n + 1) next e h (omega (arith, c)))
      ]

  -- While the channel is up, a message with a parsed event and no retries behind it is handled at most
  -- six times: it is acknowledged if one of the six runs returns, and else it is dead-lettered. Each run
  -- settles its delivery exactly once, and a run that fails before the sixth acknowledges it and puts
  -- exactly one copy on the retry queue.
  pub consume_ends :
      (handler : ℕ → E → Bool) (n : ℕ) (m : Message E) (e : E)
      → m.content ≡ some e
      → read_retry_count m.retry_count ≡ 0
      → consume 6 handler n m ≡ some (if one_returned 5 (λ i. handler i e) n then handled else dead)
  consume_ends handler n m e h c = consume-count 5 handler n m e h (omega (arith, c))
