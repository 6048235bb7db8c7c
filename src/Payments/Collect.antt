-- ===== src/Payments/Collect.antt =====
-- collectCashPayment and refundCashPayment of apps/api/src/service-request.repository.ts.
use moeen.Base.{
  ◌&&◌, ◌==◌, ◌>>=◌, ◌>>◌, Bool, Option, find_first, guard, ok, or_fail, some, update_where, ℕ,
}
use moeen.Store.{
  AuditSpec, AuditState, Db, Payment, PaymentStatus, RequestStatus, Tables, Tx,
  cash_before_completion, cash_not_due, cash_not_found, cash_not_refundable, find_request,
  insert_staff_audit_event, is_cash, is_cash_collected, is_cash_due, status_eq,
}

-- `service_request_id = $1 AND method = 'cash_on_completion'`.
abbrev pub is_cash_of : ℕ → Payment → Bool
is_cash_of rid p = p.request_id == rid && is_cash p.method

abbrev pub collect_row : ℕ → Payment → Payment
collect_row now p = record p { status = PaymentStatus.cash_collected; collected_at = some now }

abbrev pub refund_row : ℕ → Payment → Payment
refund_row now p = record p { status = PaymentStatus.refunded; refunded_at = some now }

-- UPDATE service_payments … WHERE id = $1.
unfoldable pub set_payment : ℕ → (Payment → Payment) → Tables → Tables
set_payment id f t = record t { payments = update_where (λ (p : Payment). p.id == id) f t.payments }

module _ (now : ℕ) where
  unfoldable pub collect_cash_payment : ℕ → Option AuditSpec → Db → Tx Payment
  unfolding set_payment insert_staff_audit_event
  collect_cash_payment rid audit db = do
    payment ← or_fail (find_first (is_cash_of rid) db.payments) cash_not_found
    request ← or_fail (find_request rid db.tables) cash_not_found
    guard (is_cash_due payment.status) cash_not_due
    guard (status_eq request.status RequestStatus.completed) cash_before_completion
    journal ←
        insert_staff_audit_event audit
          (some (AuditState.payment_state payment.status payment.amount_halalas))
          (some (AuditState.payment_state PaymentStatus.cash_collected payment.amount_halalas))
          db.journal
    ok (
      record { tables = set_payment payment.id (collect_row now) db.tables; journal = journal },
      collect_row now payment,
    )

  unfoldable pub refund_cash_payment : ℕ → Option AuditSpec → Db → Tx Payment
  unfolding set_payment insert_staff_audit_event
  refund_cash_payment rid audit db = do
    payment ← or_fail (find_first (is_cash_of rid) db.payments) cash_not_found
    guard (is_cash_collected payment.status) cash_not_refundable
    journal ←
        insert_staff_audit_event audit
          (some (AuditState.payment_state payment.status payment.amount_halalas))
          (some (AuditState.payment_state PaymentStatus.refunded payment.amount_halalas)) db.journal
    ok (
      record { tables = set_payment payment.id (refund_row now) db.tables; journal = journal },
      refund_row now payment,
    )
