-- ===== src/Outbox/Scheduled/Tests.antt =====
-- Two processes over a concrete Redis.
use bumpa_achievement_system.Common.{
  ℕ, ◌+◌, ◌≡◌, refl, Option, none, some, List, [], ◌∷◌, arith, if◌then◌else◌,
}
use bumpa_achievement_system.Outbox.Scheduled.{
  Redis, Entry, is_live, extended, read, publishing, started, Event, ticked, acquire_ended,
  answered, heartbeat, restarted, waited, System, step, run,
}
use bumpa_achievement_system.Outbox.Scheduled.Exclusion.{Timely, run_exclusive}
use bumpa_achievement_system.Outbox.Scheduled.TakeOver.{run_takes_over}

abbrev redis : Redis
redis = record {
  Store = Option Entry;
  entry = λ k s. s;
  set_nx = λ k v ttl now s.
      if is_live now s then s else some (record { value = v; expires_at = now + ttl });
  del = λ k s. none;
  pexpire = λ k ttl now s. if is_live now s then extended (now + ttl) s else none;
  entry-set_nx = λ k v ttl now s. refl;
  entry-del = λ k s. refl;
  entry-pexpire = λ k ttl now s. refl;
}

abbrev start : System redis "outbox:lock" 5000
start = record { now = 100; store = none; publisher = λ i. started i }

-- The first keeps the lock by its heartbeat; the second ticks meanwhile.
abbrev overlap : List Event
overlap =
    ticked 1
    ∷ acquire_ended 1 answered
    ∷ waited 2500
    ∷ heartbeat 1
    ∷ ticked 2
    ∷ acquire_ended 2 answered
    ∷ waited 3000
    ∷ []

overlap-publishing :
    ((run redis "outbox:lock" 5000 overlap start).publisher 1).run
    ≡ publishing (record { pid = 1; time = 100 })
unfolding run
overlap-publishing = refl

overlap-Timely : Timely redis "outbox:lock" 5000 overlap start
unfolding step
overlap-Timely = (tt, (tt, ((λ i v h. refl), (tt, (tt, (tt, ((λ i v h. refl), tt)))))))

run_exclusive_example :
    (◌≡◌ {A = ℕ} 1 1)
    × (let t = run redis "outbox:lock" 5000 overlap start in
        read t.now t.store ≡ some (record { pid = 1; time = 100 }))
unfolding run
run_exclusive_example =
    run_exclusive redis "outbox:lock" 5000 overlap start 1 1 (record { pid = 1; time = 100 })
      (record { pid = 1; time = 100 }) (omega arith) (λ k. refl) overlap-Timely refl refl

-- The first process is gone while it publishes.
abbrev crash : List Event
crash = ticked 1 ∷ acquire_ended 1 answered ∷ restarted 1 7 ∷ []

run_takes_over_example :
    let t = run redis "outbox:lock" 5000 crash start in
    ((run redis "outbox:lock" 5000
        (waited 5000 ∷ ticked 2 ∷ acquire_ended 2 answered ∷ [])
        t).publisher
      2).run
    ≡ publishing (record { pid = (t.publisher 2).pid; time = t.now + 5000 })
unfolding run
run_takes_over_example = run_takes_over redis "outbox:lock" 5000 crash start 2 tt refl

abbrev waiting : System redis "outbox:lock" 5000
waiting = step redis "outbox:lock" 5000 (ticked 1) start

-- Both are process 1 of their container.
abbrev twins : System redis "outbox:lock" 5000
twins = record { now = 100; store = none; publisher = λ i. started 1 }
