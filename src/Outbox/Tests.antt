-- ===== src/Outbox/Tests.antt =====
-- Runs of the outbox on concrete rows.
pub mod Rows
use mathlib.Core.Path.{subst}
use mathlib.Core.List.{Memᴰ}
use bumpa_achievement_system.Common.{
  ℕ, ◌+◌, ◌≡◌, refl, ap, ◌∙◌, eq_iff, String, Option, none, some, some-eq, List, [], ◌∷◌,
  if◌then◌else◌, ◌==◌, arith, Bool-cases, inl, inr,
}
use bumpa_achievement_system.Events.{
  OutboxEvent, publishing, published, create_outbox_event, badge_unlocked, BumpaDomainEvent,
  badge_event, create_domain_event, UserSnapshot,
}
use bumpa_achievement_system.Outbox.{
  Confirmation, acked, not_acked, unsaved, OutboxOptions, OutboxState, publish_by_id,
  publish_pending_batch,
}
use bumpa_achievement_system.Outbox.Row.{attempt, publish_by_id_lem}
use bumpa_achievement_system.Outbox.Sent.{
  IsGood, IsGoodRow, publish_by_id-IsGood, publish_pending_batch-IsGood,
}
use bumpa_achievement_system.Outbox.Stuck.{
  by_id, batch, run_calls, run_calls_final, publish_pending_batch_published,
}
use Rows.{repository, Table, empty}

abbrev pub options : OutboxOptions
options = record { batch_size = 20; max_attempts = 5 }

abbrev pub user : UserSnapshot
user = record {
  id = "u1";
  email = "ada@example.com";
  name = "Ada";
  bank_account_number = none;
  bank_code = none;
}

abbrev payload : BumpaDomainEvent
payload = badge_event (
    create_domain_event badge_unlocked
      (record {
        badge_name = "Gold";
        reward_amount_kobo = some 30000;
        reward_currency = "NGN";
        user = user;
      })
      "c1" "e1" 7)

abbrev waiting : OutboxEvent
waiting = create_outbox_event "e1" badge_unlocked payload

-- Its process stopped after the claim.
abbrev stuck : OutboxEvent
stuck = record waiting { id = "e2"; status = publishing }

abbrev up : ℕ → Confirmation
up n = acked

-- The broker refuses every call.
abbrev pub down : ℕ → Confirmation
down n = not_acked "RabbitMQ is not connected"

abbrev pub clock : ℕ → ℕ
clock n = 100 + n

abbrev start : OutboxState repository
start = record {
  rows = repository.save stuck (repository.save waiting empty);
  sent = [];
  calls = 0;
}

accepted_test :
    repository.find_one "e1" (publish_by_id repository options up clock "e1" start).0.rows
    ≡ some (record waiting { status = published; published_at = some 100 })
unfolding publish_by_id
accepted_test = refl

refused_test :
    repository.find_one "e1" (publish_by_id repository options down clock "e1" start).0.rows
    ≡ some (record waiting { attempts = 1; last_error = some "RabbitMQ is not connected" })
unfolding publish_by_id
refused_test = refl

-- The save of PUBLISHED fails: the broker has accepted the event, and it waits to be sent again.
abbrev unwritten : ℕ → Confirmation
unwritten n = unsaved "connection terminated"

unsaved_test :
    ((publish_by_id repository options unwritten clock "e1" start).0.sent ≡ "e1" ∷ [])
    × (repository.find_one "e1" (publish_by_id repository options unwritten clock "e1" start).0.rows
        ≡ some (record waiting {
          attempts = 1;
          last_error = some "connection terminated";
          published_at = some 100;
        }))
unfolding publish_by_id
unsaved_test = (refl, refl)

publish_by_id_lem_example :
    repository.find_one "e1" (publish_by_id repository options down clock "e1" start).0.rows ≡ (
      if "e1" == "e1"
      then attempt options (down 0) (clock 0) (repository.find_one "e1" start.rows)
      else repository.find_one "e1" start.rows)
publish_by_id_lem_example = publish_by_id_lem repository options down clock "e1" "e1" start

waiting-IsGoodRow : IsGoodRow options [] waiting
waiting-IsGoodRow = record {
  bounded = omega arith;
  pending_left = λ h. omega arith;
  failed_spent = λ h. cc;
  accepted = omega arith;
  accepted_bounded = omega arith;
}

stuck-IsGoodRow : IsGoodRow options [] stuck
stuck-IsGoodRow = record {
  bounded = omega arith;
  pending_left = λ h. omega arith;
  failed_spent = λ h. cc;
  accepted = omega arith;
  accepted_bounded = omega arith;
}

found_at :
    (i j : String) (r : OutboxEvent)
    → repository.find_one i start.rows ≡ some r
    → j ≡ i
    → repository.find_one j start.rows ≡ some r
found_at i j r h e = ap (λ k. repository.find_one k start.rows) e ∙ h

start-row :
    (i : String) (r : OutboxEvent)
    → repository.find_one i start.rows ≡ some r
    → IsGoodRow options [] r
start-row i r h = elim (Bool-cases ("e2" == i)) [
  | inl two ↦
      subst (IsGoodRow options []) (some-eq (found_at i "e2" r h ((eq_iff "e2" i).0 two)))
        stuck-IsGoodRow
  | inr other ↦ elim (Bool-cases ("e1" == i)) [
    | inl one ↦
        subst (IsGoodRow options []) (some-eq (found_at i "e1" r h ((eq_iff "e1" i).0 one)))
          waiting-IsGoodRow
    | inr none_such ↦ absurd (cc (simp (other, none_such) at h))
  ]
]

start-IsGood : IsGood repository options down clock start
start-IsGood = record { row = start-row }

publish_by_id-IsGood_example :
    IsGood repository options down clock (publish_by_id repository options down clock "e1" start).0
publish_by_id-IsGood_example =
    publish_by_id-IsGood repository options down clock "e1" start start-IsGood

run_calls_final_example :
    repository.find_one "e2"
      (run_calls repository options up clock (by_id "e2" ∷ batch ∷ by_id "e1" ∷ []) start).rows
    ≡ some stuck
run_calls_final_example =
    run_calls_final repository options up clock "e2" stuck refl
      (by_id "e2" ∷ batch ∷ by_id "e1" ∷ []) start refl

-- A batch of one takes the row that was inserted first.
oldest_test :
    repository.find_pending 1
      (repository.save (record waiting { id = "e3" }) (repository.save waiting empty))
    ≡ waiting ∷ []
oldest_test = refl

publish_pending_batch_published_example :
    (q : OutboxEvent) × (repository.find_one "e1"
        (publish_pending_batch repository options up clock start).rows
      ≡ some q)
    × (q.status ≡ published)
publish_pending_batch_published_example =
    publish_pending_batch_published repository options up clock (λ n. refl) start waiting
      (Memᴰ.head refl)
