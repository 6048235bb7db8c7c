-- ===== src/Outbox/Examples.antt =====
-- A row, a device, and the theorems on the worker at them.
use moeen.Base.{
  ◌+◌, ◌-◌, ◌==◌, ◌∷◌, ◌≡◌, [], arith, count, find_by, if◌then◌else◌, leb, map, none, refl, some,
  true, ℕ,
}
use moeen.Store.{DedupeKey, Journal, Notification, NotificationType, OutboxStatus, Recipient}
use moeen.Outbox.Attempts.{AllBounded, tick_once-bounded}
use moeen.Outbox.Claims.{claim-count, due_count, due_of}
use moeen.Outbox.Dedupe.{write_on_client-twice}
use moeen.Outbox.Ladder.{fail_times, fail_times-ladder, failing, is_dead_row}
use moeen.Outbox.Process.{Surroundings, process_rows, resolve_active_devices, tick_once}
use moeen.Outbox.Worker.{Device, Dispatch, claim, claim_batch, reclaim_stale, row_key}
use moeen.Outbox.Writer.{Config, Reliability, write_on_client}

abbrev row_with : ℕ → ℕ → Notification
row_with id attempts = record {
  dedupe_key = DedupeKey.provider_assigned id 7;
  recipient = Recipient.provider 7;
  notification_type = NotificationType.provider_assigned;
  id = id;
  request_id = 1;
  status = OutboxStatus.pending;
  attempts = attempts;
  available_at = 1000;
  next_attempt_at = none;
  lease_claimed_at = none;
  lease_claimed_by = none;
  last_error_kind = none;
  delivered_at = none;
}

abbrev phone : Device
phone = record { id = 11; owner = Recipient.provider 7; token = 99; revoked_at = none }

abbrev waiting : Dispatch
waiting = record { outbox = row_with 1 0 ∷ row_with 2 4 ∷ []; devices = phone ∷ [] }

abbrev around : Surroundings
around = record { clock = λ n. 40000; payload_safe = λ n. true; send = failing }

-- The row that had four attempts is dead after the cycle, the other waits for its retry.
cycle : map (λ (n : Notification). n.attempts) (tick_once around 2000 5 waiting).outbox ≡ 1 ∷ 5 ∷ []
unfolding tick_once reclaim_stale claim_batch process_rows
cycle = refl

tick_once-bounded_example : AllBounded (tick_once around 2000 5 waiting).outbox
tick_once-bounded_example = tick_once-bounded around 2000 5 waiting (refl, (refl, tt))

claim-count_example :
    (due_count 2000 (claim 2000 5 1 waiting.outbox).1 ≡ due_count 2000 waiting.outbox - 1)
    × (count (λ n. n.id == 1) (claim 2000 5 1 waiting.outbox).0
          + count (due_of 2000 (λ n. n.id == 1)) (claim 2000 5 1 waiting.outbox).1
        ≡ count (due_of 2000 (λ n. n.id == 1)) waiting.outbox)
    × (count (λ n. n.id == 1) (claim 2000 5 1 waiting.outbox).1
          + count (λ n. n.id == 1) (claim 2000 5 1 waiting.outbox).0
        ≡ count (λ n. n.id == 1) waiting.outbox
          + count (λ n. n.id == 1) (claim 2000 5 1 waiting.outbox).0)
claim-count_example = claim-count 2000 5 1 waiting.outbox (λ n. n.id == 1)

fail_times-ladder_example :
    (row' : Notification) × (find_by row_key 1 (fail_times (2000 ∷ 70000 ∷ []) 1 waiting).outbox
      ≡ some row')
    × (row'.attempts ≡ (if leb 5 (0 + 2) then 5 else 0 + 2))
    × (is_dead_row row'.status ≡ leb 5 (0 + 2))
unfolding resolve_active_devices
fail_times-ladder_example =
    fail_times-ladder (2000 ∷ 70000 ∷ []) 1 waiting (row_with 1 0) phone [] refl refl (omega arith)
      refl

abbrev journal : Journal
journal = record { events = []; outbox = []; audit = []; staff_users = []; next_outbox_id = 1 }

abbrev on : Config
on = record { notifications_enabled = true; tracking_enabled = true }

abbrev key : DedupeKey
key = DedupeKey.provider_assigned 1 7

abbrev once : Journal
once =
    write_on_client on 1000 NotificationType.provider_assigned 1 (some (Recipient.provider 7)) key
      Reliability.required journal

write_on_client-twice_example :
    write_on_client on 2000 NotificationType.opportunity_closed 1
      (some (Recipient.customer 5))
      key
      Reliability.best_effort
      once
    ≡ once
write_on_client-twice_example =
    write_on_client-twice on 1000 2000 NotificationType.provider_assigned
      NotificationType.opportunity_closed 1 1 (Recipient.provider 7) (some (Recipient.customer 5))
      key Reliability.required Reliability.best_effort journal
