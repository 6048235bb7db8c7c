-- ===== src/Outbox/Ladder.antt =====
-- The retries of processClaimedRow and finalizeRetry under a failing sender.
use moeen.Base.{
  ◌+◌, ◌<◌, ◌==◌, ◌∙◌, ◌∷◌, ◌≡◌, ==_refl, Bool, Bool-cases, List, Option, [], ap, arith, count,
  false, find_by, find_by-key, found-update_where, if◌then◌else◌, inl, inr, leb, length, none, refl,
  some, subst, suc, sym, true, ℕ,
}
use moeen.Store.{Notification, OutboxErrorKind, OutboxStatus}
use moeen.Outbox.Attempts.{is_open_row}
use moeen.Outbox.Process.{finish_row, process_claimed_row, process_with, resolve_active_devices}
use moeen.Outbox.Worker.{
  Device, Dispatch, Sending, dead_row, finalize_retry, other_exception, retry_delay, retry_row,
  row_key,
}
use moeen.Outbox.Writer.{max_delivery_attempts}
use moeen.Tracking.Arrival.{or_else}

-- A sender that never reaches the service.
abbrev pub failing : List Device → Sending
failing devices = other_exception

-- One delivery of the row `id`, if it is still open.
abbrev pub attempt_on : ℕ → Option Notification → Dispatch → Dispatch
attempt_on now none d = d
attempt_on now (some row) d =
    if is_open_row row.status then (process_claimed_row now row true failing d).0 else d

-- One delivery at each of the times.
abbrev pub fail_times : List ℕ → ℕ → Dispatch → Dispatch
fail_times [] id d = d
fail_times (now ∷ times) id d = fail_times times id (attempt_on now (find_by row_key id d.outbox) d)

abbrev pub is_dead_row : OutboxStatus → Bool
is_dead_row OutboxStatus.dead = true
is_dead_row _ = false

abbrev pub failed_row : ℕ → Notification → Notification
failed_row now row =
    if leb max_delivery_attempts (suc row.attempts)
    then dead_row (suc row.attempts) OutboxErrorKind.network_error row
    else retry_row (suc row.attempts) (now + or_else (retry_delay (suc row.attempts)) 60000)
        OutboxErrorKind.network_error row

process-failing :
    (now : ℕ) (row : Notification) (d : Dispatch) (x : Device) (xs : List Device)
    → resolve_active_devices row.recipient d.devices ≡ x ∷ xs
    → (process_claimed_row now row true failing d).0
      ≡ (finalize_retry now row (suc row.attempts) OutboxErrorKind.network_error d).0
unfolding process_claimed_row process_with finish_row
process-failing now row d x xs e = rw e refl

finalize-found :
    (now : ℕ) (row : Notification) (d : Dispatch)
    → find_by row_key row.id d.outbox ≡ some row
    → (find_by row_key row.id
          (finalize_retry now row (suc row.attempts) OutboxErrorKind.network_error d).0.outbox
        ≡ some (failed_row now row))
      × ((finalize_retry now row (suc row.attempts) OutboxErrorKind.network_error d).0.devices
          ≡ d.devices)
unfolding finalize_retry
finalize-found now row d found = elim (Bool-cases (leb max_delivery_attempts (suc row.attempts))) [
  | inl e ↦ rw e (
    found-update_where (λ (n : Notification). n.id == row.id) (λ (n : Notification). n.id == row.id)
          (dead_row (suc row.attempts) OutboxErrorKind.network_error) d.outbox row (λ n own k. k)
          (λ n own k. k) found
        ∙ ground (arith, ==_refl row.id),
    refl,
  )
  | inr e ↦ rw e (
    found-update_where (λ (n : Notification). n.id == row.id) (λ (n : Notification). n.id == row.id)
          (retry_row (suc row.attempts) (now + or_else (retry_delay (suc row.attempts)) 60000)
            OutboxErrorKind.network_error)
          d.outbox row (λ n own k. k) (λ n own k. k) found
        ∙ ground (arith, ==_refl row.id),
    refl,
  )
]

dead-fail_times :
    (times : List ℕ) (id : ℕ) (d : Dispatch) (row : Notification)
    → find_by row_key id d.outbox ≡ some row
    → is_open_row row.status ≡ false
    → fail_times times id d ≡ d
dead-fail_times [] id d row found closed = refl
dead-fail_times (now ∷ times) id d row found closed =
    let still : attempt_on now (find_by row_key id d.outbox) d ≡ d = rw (found, closed) refl in
    ap (fail_times times id) still ∙ dead-fail_times times id d row found closed

-- A row that is open, with attempts left, whose recipient has an active device: under a sender that
-- always fails, each delivery adds one attempt until there are five; the row is dead from the
-- fifth attempt on, and not before.
pub fail_times-ladder :
    (times : List ℕ) (id : ℕ) (d : Dispatch) (row : Notification) (x : Device) (xs : List Device)
    → find_by row_key id d.outbox ≡ some row
    → is_open_row row.status ≡ true
    → row.attempts < max_delivery_attempts
    → resolve_active_devices row.recipient d.devices ≡ x ∷ xs
    → (row' : Notification) × (find_by row_key id (fail_times times id d).outbox ≡ some row')
      × (row'.attempts ≡ (
          if leb max_delivery_attempts (row.attempts + length times)
          then max_delivery_attempts
          else row.attempts + length times))
      × (is_dead_row row'.status ≡ leb max_delivery_attempts (row.attempts + length times))
fail_times-ladder [] id d row x xs found on left device = (row, found, ground arith, ground arith)
fail_times-ladder (now ∷ times) id d row x xs found on left device =
    let key : row.id ≡ id = find_by-key row_key id d.outbox row found in
    let next : attempt_on now (find_by row_key id d.outbox) d
        ≡ (process_claimed_row now row true failing d).0 =
      rw (found, on) refl in
    let result = (finalize_retry now row (suc row.attempts) OutboxErrorKind.network_error d).0 in
    let went : attempt_on now (find_by row_key id d.outbox) d ≡ result =
      next ∙ process-failing now row d x xs device in
    let (found', same) =
      finalize-found now row d
        (subst (λ k. find_by row_key k d.outbox ≡ some row) (sym key) found) in
    let found_id : find_by row_key id result.outbox ≡ some (failed_row now row) =
      subst (λ k. find_by row_key k result.outbox ≡ some (failed_row now row)) key found' in
    elim (Bool-cases (leb max_delivery_attempts (suc row.attempts))) [
      | inl last ↦
          let gone : fail_times (now ∷ times) id d ≡ result =
            ap (fail_times times id) went
            ∙ dead-fail_times times id result (failed_row now row) found_id (rw last refl) in
          (
            failed_row now row,
            ap (λ (e : Dispatch). find_by row_key id e.outbox) gone ∙ found_id,
            ground arith,
            ground arith,
          )
      | inr more ↦
          let sum : (failed_row now row).attempts + length times
              ≡ row.attempts + suc (length times) =
            rw more (omega arith) in
          let (row', there, count, dead) =
            fail_times-ladder times id result (failed_row now row) x xs found_id (rw more refl)
              (rw more (ground arith)) (rw (more, same) device) in
          (
            row',
            ap (λ (e : Dispatch). find_by row_key id (fail_times times id e).outbox) went ∙ there,
            count ∙ ap (λ n. if leb max_delivery_attempts n then max_delivery_attempts else n) sum,
            dead ∙ ap (λ n. leb max_delivery_attempts n) sum,
          )
    ]
