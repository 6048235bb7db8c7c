-- ===== src/Requests/Closing.antt =====
-- What the choice of a provider does to the marketplace of a request, by assignProvider and by the
-- approval of a provider's quote.
use moeen.Base.{
  ◌==◌, ◌∙◌, ◌≡◌, List, Option, ap, arith, count, count-update_where, false, find_by,
  find_by-update_by, found-update_first, if◌then◌else◌, ok, refl, some, total-update_where-eq, true,
  update_by, update_where, ℕ,
}
use moeen.Store.{
  AuditSpec, Db, Opportunity, Provider, Quote, ServiceRequest, Tables, find_provider, find_request,
  pending_dispatch,
}
use moeen.Outbox.Writer.{Config}
use moeen.Requests.Assign.{assign_provider, assign_row, assign_tables}
use moeen.Requests.Inversion.{assign_provider_inv}
use moeen.Requests.Opportunities.{
  close_opportunity, is_eligible, is_open_for, is_open_provider_quote, reject_quote,
}

-- The closing of one request's opportunities is invisible to the others.
open-close_other :
    (j rid : ℕ) (os : List Opportunity)
    → (j == rid) ≡ false
    → count (is_open_for j) (update_where (is_open_for rid) close_opportunity os)
      ≡ count (is_open_for j) os
open-close_other j rid os other =
    total-update_where-eq (λ o. if is_open_for j o then 1 else 0) (is_open_for rid)
      close_opportunity os (λ o e. ground arith)

proposed-reject_other :
    (j rid now : ℕ) (qs : List Quote)
    → (j == rid) ≡ false
    → count
        (is_open_provider_quote j)
        (update_where (is_open_provider_quote rid) (reject_quote now) qs)
      ≡ count (is_open_provider_quote j) qs
proposed-reject_other j rid now qs other =
    total-update_where-eq (λ q. if is_open_provider_quote j q then 1 else 0)
      (is_open_provider_quote rid) (reject_quote now) qs (λ q e. ground arith)

find_request-other :
    (j rid : ℕ) (f : ServiceRequest → ServiceRequest) (rs : List ServiceRequest)
    → ((r : ServiceRequest) → (f r).id ≡ r.id)
    → (j == rid) ≡ false
    → find_by (λ (r : ServiceRequest). r.id) j (update_by (λ (r : ServiceRequest). r.id) rid f rs)
      ≡ find_by (λ (r : ServiceRequest). r.id) j rs
find_request-other j rid f rs keeps other =
    ground (arith, find_by-update_by (λ (r : ServiceRequest). r.id) rid j f rs keeps)

module _ (cfg : Config) (now rid pid : ℕ) (audit : Option AuditSpec) (db db' : Db)
    (row : ServiceRequest) (done : assign_provider cfg now rid pid audit db ≡ ok (db', row)) where
  -- A committed assignment found the request pending dispatch and the provider verified, available
  -- and skilled in the service; it leaves the request assigned to the provider, with no open
  -- opportunity and no proposed provider quote.
  pub assign_provider-closes :
      (r : ServiceRequest) × (find_request rid db.tables ≡ some r)
      × (r.status ≡ pending_dispatch)
      × (p : Provider) × (find_provider pid db.tables ≡ some p)
      × (is_eligible r.service_id p ≡ true)
      × (find_request rid db'.tables ≡ some (assign_row pid r))
      × (count (is_open_for rid) db'.opportunities ≡ 0)
      × (count (is_open_provider_quote rid) db'.quotes ≡ 0)
  unfolding assign_tables
  assign_provider-closes =
      let (r, found, waits, p, known, able, left) =
        assign_provider_inv cfg now db db' rid pid audit row done in
      (
        r,
        found,
        waits,
        p,
        known,
        able,
        ap (find_request rid) left
            ∙ found-update_first (λ (x : ServiceRequest). x.id == rid) (assign_row pid) db.requests
                r (λ x e. e) found,
        ap (λ (t : Tables). count (is_open_for rid) t.opportunities) left
            ∙ count-update_where (is_open_for rid) close_opportunity db.opportunities
                (λ o e. ground arith),
        ap (λ (t : Tables). count (is_open_provider_quote rid) t.quotes) left
            ∙ count-update_where (is_open_provider_quote rid) (reject_quote now) db.quotes
                (λ q e. ground arith),
      )

  -- A committed assignment changes nothing of another request: the row, its open opportunities and
  -- its proposed provider quotes are as many as before; no payment, session or position moves.
  pub assign_provider-other :
      (j : ℕ)
      → (j == rid) ≡ false
      → (find_request j db'.tables ≡ find_request j db.tables)
        × (count (is_open_for j) db'.opportunities ≡ count (is_open_for j) db.opportunities)
        × (count (is_open_provider_quote j) db'.quotes ≡ count (is_open_provider_quote j) db.quotes)
        × (db'.payments ≡ db.payments)
        × (db'.sessions ≡ db.sessions)
        × (db'.positions ≡ db.positions)
  unfolding assign_tables
  assign_provider-other j other =
      let (r, found, waits, p, known, able, left) =
        assign_provider_inv cfg now db db' rid pid audit row done in
      (
        ap (find_request j) left
            ∙ find_request-other j rid (assign_row pid) db.requests (λ x. refl) other,
        ap (λ (t : Tables). count (is_open_for j) t.opportunities) left
            ∙ open-close_other j rid db.opportunities other,
        ap (λ (t : Tables). count (is_open_provider_quote j) t.quotes) left
            ∙ proposed-reject_other j rid now db.quotes other,
        ap (λ (t : Tables). t.payments) left,
        ap (λ (t : Tables). t.sessions) left,
        ap (λ (t : Tables). t.positions) left,
      )
