-- ===== src/Outbox/Attempts.antt =====
-- The attempts of the rows, through a cycle of the dispatch worker.
use moeen.Base.{
  ◌&&◌, ◌+◌, ◌==◌, ◌||◌, ◌∷◌, ◌≡◌, All, All-find_first, All-update_first, All-update_where, Bool,
  Bool-cases, List, Option, Option-cases, [], any, arith, false, find_first, find_first-holds, inl,
  inr, leb, ltb, none, not, some, suc, true, zero, ℕ,
}
use moeen.Store.{Notification, OutboxErrorKind, OutboxStatus}
use moeen.Outbox.Process.{
  Surroundings, all_permanent, conclude_row, finish_row, is_config_error, is_delivered_to,
  lease_renew_interval_milliseconds, pair_results, process_claimed_row, process_rows, process_with,
  renew_leases_if_due, resolve_active_devices, tick_once,
}
use moeen.Outbox.Worker.{
  Device, DeviceResult, Dispatch, Sending, batch_config_error, batch_throttled, claim, claim_batch,
  claim_row, dead_row, deliver_row, dispatch_batch_size, due_at, finalize_retry, is_owned_lease,
  is_pending_row, is_sending_row, is_stale, other_exception, reclaim_row, reclaim_stale,
  renew_owned_leases, renew_row, results, set_row,
}
use moeen.Outbox.Writer.{max_delivery_attempts}
use moeen.Tracking.Retention.{has_age, oldest}

abbrev pub is_open_row : OutboxStatus → Bool
is_open_row status = is_pending_row status || is_sending_row status

abbrev pub is_bounded : Notification → Bool
is_bounded n =
    leb n.attempts max_delivery_attempts
    && (not (is_open_row n.status) || ltb n.attempts max_delivery_attempts)

abbrev pub AllBounded : List Notification → Type 0
AllBounded rows = All (λ n. is_bounded n ≡ true) rows

-- A row with an attempt left.
abbrev pub has_attempt : Notification → Bool
has_attempt n = ltb n.attempts max_delivery_attempts

finalize_retry-bounded :
    (now : ℕ) (row : Notification) (kind : OutboxErrorKind) (d : Dispatch)
    → has_attempt row ≡ true
    → AllBounded d.outbox
    → AllBounded (finalize_retry now row (suc row.attempts) kind d).0.outbox
unfolding finalize_retry
finalize_retry-bounded now row kind d left h =
    elim (Bool-cases (leb max_delivery_attempts (suc row.attempts))) [
      | inl e ↦ rw e (
          All-update_where (λ n. is_bounded n ≡ true) (λ (n : Notification). n.id == row.id)
            (dead_row (suc row.attempts) kind) d.outbox (λ n own b. ground arith) h)
      | inr e ↦ rw e (
          All-update_where (λ n. is_bounded n ≡ true) (λ (n : Notification). n.id == row.id) _
            d.outbox (λ n own b. ground arith) h)
    ]

dead-bounded :
    (row : Notification) (kind : OutboxErrorKind) (d : Dispatch)
    → has_attempt row ≡ true
    → AllBounded d.outbox
    → AllBounded (set_row row.id (dead_row (suc row.attempts) kind) d).outbox
dead-bounded row kind d left h =
    All-update_where (λ n. is_bounded n ≡ true) (λ (n : Notification). n.id == row.id)
      (dead_row (suc row.attempts) kind) d.outbox (λ n own b. ground arith) h

deliver-bounded :
    (now : ℕ) (row : Notification) (kind : Option OutboxErrorKind) (d : Dispatch)
    → AllBounded d.outbox
    → AllBounded (set_row row.id (deliver_row now kind) d).outbox
deliver-bounded now row kind d h =
    All-update_where (λ n. is_bounded n ≡ true) (λ (n : Notification). n.id == row.id)
      (deliver_row now kind) d.outbox (λ n own b. ground arith) h

conclude_row-bounded :
    (now : ℕ) (row : Notification) (entries : List (Device × DeviceResult)) (d : Dispatch)
    → has_attempt row ≡ true
    → AllBounded d.outbox
    → AllBounded (conclude_row now row entries d).0.outbox
unfolding conclude_row
conclude_row-bounded now row entries d left h =
    elim (Bool-cases (any (λ (e : Device × DeviceResult). is_config_error e.1) entries)) [
      | inl config ↦ rw config (dead-bounded row OutboxErrorKind.config_error d left h)
      | inr fine ↦
          elim (Bool-cases (any (λ (e : Device × DeviceResult). is_delivered_to e.1) entries)) [
            | inl some_sent ↦ rw (fine, some_sent) (deliver-bounded now row none d h)
            | inr none_sent ↦ elim (Bool-cases (all_permanent entries)) [
              | inl gone ↦ rw (fine, none_sent, gone) (deliver-bounded now row _ d h)
              | inr transient ↦
                  rw (fine, none_sent, transient) (finalize_retry-bounded now row _ d left h)
            ]
          ]
    ]

finish_row-bounded :
    (now : ℕ) (row : Notification) (devices : List Device) (s : Sending) (d : Dispatch)
    → has_attempt row ≡ true
    → AllBounded d.outbox
    → AllBounded (finish_row now row devices s d).0.outbox
unfolding finish_row
finish_row-bounded now row devices (results rs) d left h =
    conclude_row-bounded now row (pair_results devices rs) _ left h
finish_row-bounded now row devices batch_config_error d left h =
    dead-bounded row OutboxErrorKind.config_error d left h
finish_row-bounded now row devices batch_throttled d left h =
    finalize_retry-bounded now row OutboxErrorKind.throttled d left h
finish_row-bounded now row devices other_exception d left h =
    finalize_retry-bounded now row OutboxErrorKind.network_error d left h

process_with-bounded :
    (now : ℕ) (row : Notification) (safe : Bool) (send : List Device → Sending) (d : Dispatch)
    (devices : List Device)
    → has_attempt row ≡ true
    → AllBounded d.outbox
    → AllBounded (process_with now row safe send d devices).0.outbox
unfolding process_with
process_with-bounded now row safe send d [] left h =
    deliver-bounded now row (some OutboxErrorKind.no_active_device) d h
process_with-bounded now row true send d (x ∷ xs) left h =
    finish_row-bounded now row (x ∷ xs) (send (x ∷ xs)) d left h
process_with-bounded now row false send d (x ∷ xs) left h =
    dead-bounded row OutboxErrorKind.unknown d left h

pub process_claimed_row-bounded :
    (now : ℕ) (row : Notification) (safe : Bool) (send : List Device → Sending) (d : Dispatch)
    → has_attempt row ≡ true
    → AllBounded d.outbox
    → AllBounded (process_claimed_row now row safe send d).0.outbox
unfolding process_claimed_row
process_claimed_row-bounded now row safe send d left h =
    process_with-bounded now row safe send d (resolve_active_devices row.recipient d.devices) left h

-- What a claim takes has an attempt left, since it was pending.
claim-bounded :
    (now worker limit : ℕ) (rows : List Notification)
    → AllBounded rows
    → All (λ n. has_attempt n ≡ true) (claim now worker limit rows).0
      × AllBounded (claim now worker limit rows).1
unfolding claim
claim-bounded now worker zero rows h = (tt, h)
claim-bounded now worker (suc limit) rows h = elim (Option-cases (oldest (due_at now) rows)) [
  | inl e ↦ rw (e, claim) (tt, h)
  | inr (k, e) ↦ elim (Option-cases (find_first (λ n. has_age (due_at now n) k) rows)) [
    | inl f ↦ rw (e, f, claim) (tt, h)
    | inr (n, f) ↦
        let (taken, rest) = claim-bounded now worker limit _ (
          All-update_first (λ x. is_bounded x ≡ true) (λ x. has_age (due_at now x) k)
            (claim_row now worker) rows (λ x due b. ground arith) h) in
        let bounded =
          All-find_first (λ x. is_bounded x ≡ true) (λ x. has_age (due_at now x) k) rows n h f in
        let due = find_first-holds (λ x. has_age (due_at now x) k) rows n f in
        rw (e, f, claim) ((ground arith, taken), rest)
  ]
]

renew_owned_leases-bounded :
    (now worker : ℕ) (ids : List ℕ) (rows : List Notification)
    → AllBounded rows
    → AllBounded (renew_owned_leases now worker ids rows)
unfolding renew_owned_leases
renew_owned_leases-bounded now worker ids rows h =
    All-update_where (λ n. is_bounded n ≡ true) (is_owned_lease worker ids) (renew_row now) rows
      (λ n own b. b) h

renew-bounded :
    (now worker last : ℕ) (active rows : List Notification)
    → AllBounded rows
    → AllBounded (renew_leases_if_due now worker last active rows).1
unfolding renew_leases_if_due
renew-bounded now worker last active rows h =
    elim (Bool-cases (leb (last + lease_renew_interval_milliseconds) now)) [
      | inl e ↦ rw e (renew_owned_leases-bounded now worker _ rows h)
      | inr e ↦ rw e h
    ]

process_rows-bounded :
    (w : Surroundings) (worker last : ℕ) (rows : List Notification) (d : Dispatch)
    → All (λ n. has_attempt n ≡ true) rows
    → AllBounded d.outbox
    → AllBounded (process_rows w worker last rows d).outbox
unfolding process_rows
process_rows-bounded w worker last [] d left h = h
process_rows-bounded w worker last (row ∷ rows) d left h =
    process_rows-bounded w worker
      (renew_leases_if_due (w.clock row) worker last (row ∷ rows) d.outbox).0 rows _ left.1
      (process_claimed_row-bounded (w.clock row) row (w.payload_safe row) w.send _ left.0
        (renew-bounded (w.clock row) worker last (row ∷ rows) d.outbox h))

-- A cycle of the worker, whatever the senders answer, keeps every row at five attempts at most,
-- and at four at most while it is pending or being sent.
pub tick_once-bounded :
    (w : Surroundings) (now worker : ℕ) (d : Dispatch)
    → AllBounded d.outbox
    → AllBounded (tick_once w now worker d).outbox
unfolding tick_once reclaim_stale claim_batch
tick_once-bounded w now worker d h =
    let (taken, rest) = claim-bounded now worker dispatch_batch_size (reclaim_stale now d.outbox) (
      All-update_where (λ n. is_bounded n ≡ true) (is_stale now) (reclaim_row now) d.outbox
        (λ n stale b. ground arith) h) in
    process_rows-bounded w worker 0 _ _ taken rest
