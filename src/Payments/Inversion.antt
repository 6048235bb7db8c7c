-- ===== src/Payments/Inversion.antt =====
-- What a payment transaction found when it committed, and the tables it left.
use moeen.Base.{◌≡◌, Option, arith, find_first, guard-eq-ok, ok, or_fail-eq-ok, some, ℕ}
use moeen.Store.{
  AuditSpec, Db, Payment, PaymentStatus, RequestStatus, ServiceRequest, cash_before_completion,
  cash_not_due, cash_not_found, cash_not_refundable, find_request, is_cash_collected, is_cash_due,
  status_eq,
}
use moeen.Payments.Collect.{
  collect_cash_payment, collect_row, is_cash_of, refund_cash_payment, refund_row, set_payment,
}

module _ (now : ℕ) (db db' : Db) where
  pub collect_cash_payment_inv :
      (rid : ℕ) (audit : Option AuditSpec) (row : Payment)
      → collect_cash_payment now rid audit db ≡ ok (db', row)
      → (p : Payment) × (find_first (is_cash_of rid) db.payments ≡ some p)
        × (r : ServiceRequest) × (find_request rid db.tables ≡ some r)
        × (p.status ≡ PaymentStatus.cash_due)
        × (r.status ≡ RequestStatus.completed)
        × (db'.tables ≡ set_payment p.id (collect_row now) db.tables)
        × (row ≡ collect_row now p)
  unfolding collect_cash_payment
  collect_cash_payment_inv rid audit row e =
      let (p, paid, e1) =
        or_fail-eq-ok (find_first (is_cash_of rid) db.payments) cash_not_found _ e in
      let (r, found, e2) = or_fail-eq-ok (find_request rid db.tables) cash_not_found _ e1 in
      let (due, e3) = guard-eq-ok (is_cash_due p.status) cash_not_due _ e2 in
      let (done, e4) =
        guard-eq-ok (status_eq r.status RequestStatus.completed) cash_before_completion _ e3 in
      (p, paid, r, found, ground arith, ground arith, ground arith, ground arith)

  pub refund_cash_payment_inv :
      (rid : ℕ) (audit : Option AuditSpec) (row : Payment)
      → refund_cash_payment now rid audit db ≡ ok (db', row)
      → (p : Payment) × (find_first (is_cash_of rid) db.payments ≡ some p)
        × (p.status ≡ PaymentStatus.cash_collected)
        × (db'.tables ≡ set_payment p.id (refund_row now) db.tables)
        × (row ≡ refund_row now p)
  unfolding refund_cash_payment
  refund_cash_payment_inv rid audit row e =
      let (p, paid, e1) =
        or_fail-eq-ok (find_first (is_cash_of rid) db.payments) cash_not_found _ e in
      let (collected, e2) = guard-eq-ok (is_cash_collected p.status) cash_not_refundable _ e1 in
      (p, paid, ground arith, ground arith, ground arith)
