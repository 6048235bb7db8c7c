-- ===== src/Payments/Once.antt =====
-- collectCashPayment and refundCashPayment, called again after they committed.
use moeen.Base.{
  ◌==◌, ◌∙◌, ◌≡◌, Option, ap, arith, err, false, find_first, found-update_where, ok, refl, some, ℕ,
}
use moeen.Store.{
  AuditSpec, Db, Payment, PaymentStatus, RequestStatus, ServiceRequest, Tables, cash_not_due,
  cash_not_refundable, find_request, is_cash_collected, is_cash_due,
}
use moeen.Payments.Collect.{
  collect_cash_payment, collect_row, is_cash_of, refund_cash_payment, refund_row, set_payment,
}
use moeen.Payments.Inversion.{collect_cash_payment_inv, refund_cash_payment_inv}

found-set_payment :
    (rid id : ℕ) (f : Payment → Payment) (t : Tables) (p : Payment)
    → ((x : Payment) → is_cash_of rid (f x) ≡ is_cash_of rid x)
    → p.id ≡ id
    → find_first (is_cash_of rid) t.payments ≡ some p
    → find_first (is_cash_of rid) (set_payment id f t).payments ≡ some (f p)
unfolding set_payment
found-set_payment rid id f t p same key found =
    found-update_where (is_cash_of rid) (λ (x : Payment). x.id == id) f t.payments p
      (λ x e k. same x ∙ k) (λ x e k. same x ∙ k) found
    ∙ ground arith

refuse-collect :
    (now rid : ℕ) (audit : Option AuditSpec) (db : Db) (p : Payment) (r : ServiceRequest)
    → find_first (is_cash_of rid) db.payments ≡ some p
    → find_request rid db.tables ≡ some r
    → is_cash_due p.status ≡ false
    → collect_cash_payment now rid audit db ≡ err cash_not_due
unfolding collect_cash_payment
refuse-collect now rid audit db p r found request done = ground arith

refuse-refund :
    (now rid : ℕ) (audit : Option AuditSpec) (db : Db) (p : Payment)
    → find_first (is_cash_of rid) db.payments ≡ some p
    → is_cash_collected p.status ≡ false
    → refund_cash_payment now rid audit db ≡ err cash_not_refundable
unfolding refund_cash_payment
refuse-refund now rid audit db p found done = ground arith

module _ (now rid : ℕ) (audit : Option AuditSpec) (db db' : Db) (row : Payment) where
  -- A committed collection found the request completed and its cash due; the payment is collected
  -- afterwards, with the amount it had, and another collection, whenever and by whomever, is
  -- refused because the cash is no longer due.
  pub collect_cash_payment-once :
      collect_cash_payment now rid audit db ≡ ok (db', row)
      → (p : Payment) × (r : ServiceRequest) × (find_first (is_cash_of rid) db.payments ≡ some p)
        × (find_request rid db.tables ≡ some r)
        × (r.status ≡ RequestStatus.completed)
        × (p.status ≡ PaymentStatus.cash_due)
        × (find_first (is_cash_of rid) db'.payments ≡ some (collect_row now p))
        × ((later : ℕ) (who : Option AuditSpec)
            → collect_cash_payment later rid who db' ≡ err cash_not_due)
  unfolding set_payment
  collect_cash_payment-once done =
      let (p, paid, r, found, due, finished, left, same) =
        collect_cash_payment_inv now db db' rid audit row done in
      let after : find_first (is_cash_of rid) db'.payments ≡ some (collect_row now p) =
        ap (λ (t : Tables). find_first (is_cash_of rid) t.payments) left
        ∙ found-set_payment rid p.id (collect_row now) db.tables p (λ x. refl) refl paid in
      let request : find_request rid db'.tables ≡ some r = ap (find_request rid) left ∙ found in
      (
        p,
        r,
        paid,
        found,
        finished,
        due,
        after,
        λ later who. refuse-collect later rid who db' (collect_row now p) r after request refl,
      )

  -- A committed refund found the cash collected; the payment is refunded afterwards, with the
  -- amount it had, and another refund is refused.
  pub refund_cash_payment-once :
      refund_cash_payment now rid audit db ≡ ok (db', row)
      → (p : Payment) × (find_first (is_cash_of rid) db.payments ≡ some p)
        × (p.status ≡ PaymentStatus.cash_collected)
        × (find_first (is_cash_of rid) db'.payments ≡ some (refund_row now p))
        × ((later : ℕ) (who : Option AuditSpec)
            → refund_cash_payment later rid who db' ≡ err cash_not_refundable)
  unfolding set_payment
  refund_cash_payment-once done =
      let (p, paid, collected, left, same) =
        refund_cash_payment_inv now db db' rid audit row done in
      let after : find_first (is_cash_of rid) db'.payments ≡ some (refund_row now p) =
        ap (λ (t : Tables). find_first (is_cash_of rid) t.payments) left
        ∙ found-set_payment rid p.id (refund_row now) db.tables p (λ x. refl) refl paid in
      (
        p,
        paid,
        collected,
        after,
        λ later who. refuse-refund later rid who db' (refund_row now p) after refl,
      )
