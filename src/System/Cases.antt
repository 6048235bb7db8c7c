-- ===== src/System/Cases.antt =====
-- More single transactions on the histories of System/Examples, and the theorems on them.
use moeen.Base.{
  ◌-◌, ◌==◌, ◌≡◌, ◌≤◌, Option, Outcome, committed, count, err, find_first, if◌then◌else◌, is_some,
  none, not, refl, select, some, ℕ,
}
use moeen.Store.{
  AuditSpec, Db, Error, Payment, PaymentStatus, RequestStatus, ServiceRequest, Tables, cash_not_due,
  cash_not_refundable, find_request, submission_conflict, submission_replay,
}
use moeen.Payments.Collect.{
  collect_cash_payment, collect_row, is_cash_of, refund_cash_payment, refund_row,
}
use moeen.Payments.Once.{collect_cash_payment-once, refund_cash_payment-once}
use moeen.Requests.Create.{create, new_request}
use moeen.Requests.Idempotence.{create-create}
use moeen.System.{opening}
use moeen.System.Examples.{cfg, due, finished, home, new_db, spec, submission}
use moeen.Tracking.Batches.{prune_provider_tracking_data-batch}
use moeen.Tracking.Retention.{prune_provider_tracking_data, sample_age, session_age}

abbrev collecting : Outcome Error (Db × Payment)
collecting = collect_cash_payment 91000 1 spec finished

abbrev collected_db : Db
collected_db = committed finished collecting

collect_cash_payment-once_example :
    (p : Payment) × (r : ServiceRequest) × (find_first (is_cash_of 1) finished.payments ≡ some p)
    × (find_request 1 finished.tables ≡ some r)
    × (r.status ≡ RequestStatus.completed)
    × (p.status ≡ PaymentStatus.cash_due)
    × (find_first (is_cash_of 1) collected_db.payments ≡ some (collect_row 91000 p))
    × ((later : ℕ) (who : Option AuditSpec)
        → collect_cash_payment later 1 who collected_db ≡ err cash_not_due)
unfolding collect_cash_payment
collect_cash_payment-once_example =
    collect_cash_payment-once 91000 1 spec finished collected_db (collect_row 91000 due) refl

abbrev refunding : Outcome Error (Db × Payment)
refunding = refund_cash_payment 95000 1 none collected_db

refund_cash_payment-once_example :
    (p : Payment) × (find_first (is_cash_of 1) collected_db.payments ≡ some p)
    × (p.status ≡ PaymentStatus.cash_collected)
    × (find_first (is_cash_of 1) (committed collected_db refunding).payments
        ≡ some (refund_row 95000 p))
    × ((later : ℕ) (who : Option AuditSpec)
        → refund_cash_payment later 1 who (committed collected_db refunding)
          ≡ err cash_not_refundable)
unfolding collect_cash_payment refund_cash_payment
refund_cash_payment-once_example =
    refund_cash_payment-once 95000 1 none collected_db (committed collected_db refunding)
      (refund_row 95000 (collect_row 91000 due)) refl

abbrev creating : Outcome Error (Db × ServiceRequest)
creating = create cfg 1000 3 5 (some home) (some submission) new_db

create-create_example :
    create cfg 1500 3 5 none
      (some (record { client_submission_id = 9; submission_fingerprint = 78 }))
      (committed new_db creating)
    ≡ err (if 77 == 78 then submission_replay else submission_conflict)
unfolding create opening
create-create_example =
    create-create cfg 1000 3 5 (some home) submission new_db (committed new_db creating)
      (new_request 3 5 (some home) (some submission) new_db.tables) refl 1500 3 none 78

abbrev pruning : Outcome Error (Db × (ℕ × ℕ))
pruning = prune_provider_tracking_data 20000 100 1 finished

abbrev pruned : Tables
pruned = (committed finished pruning).tables

prune_provider_tracking_data-batch_example :
    (1 ≤ 1)
    × (1 ≤ 10000)
    × (count (λ s. is_some (sample_age 20000 s)) pruned.samples
        ≡ count (λ s. is_some (sample_age 20000 s)) finished.samples - 1)
    × (select (λ s. not (is_some (sample_age 20000 s))) pruned.samples
        ≡ select (λ s. not (is_some (sample_age 20000 s))) finished.samples)
    × (count (λ s. is_some (session_age 100 pruned.samples s)) pruned.sessions
        ≡ count (λ s. is_some (session_age 100 pruned.samples s)) finished.sessions - 1)
    × (select (λ s. not (is_some (session_age 100 pruned.samples s))) pruned.sessions
        ≡ select (λ s. not (is_some (session_age 100 pruned.samples s))) finished.sessions)
    × (pruned ≡ record finished.tables { samples = pruned.samples; sessions = pruned.sessions })
unfolding prune_provider_tracking_data
prune_provider_tracking_data-batch_example =
    prune_provider_tracking_data-batch 20000 100 1 finished (committed finished pruning) (1, 0) refl
