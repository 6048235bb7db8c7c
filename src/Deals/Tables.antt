-- ===== src/Deals/Tables.antt =====
-- The other changes of the tables, against the invariant of Deals.
use Prim.Native.String.{String}
use moeen.Base.{
  ◌==◌, ◌∷◌, ◌≡◌, Option, [], arith, find_first, find_first-none-total, if◌then◌else◌, none, refl,
  some, total-append, total-update_where-le, true, update_by, ℕ,
}
use moeen.Store.{
  Payment, Quote, RequestStatus, ServiceRequest, Tables, find_quote, find_request, is_proposed,
}
use moeen.Deals.{Deals, cap, is_approved_for, is_deal, is_payment_of}
use moeen.Deals.Statements.{
  approved-end_quote, approved-reject_quotes, cap_at-update_by, deals-end_quote,
  deals-reject_quotes, fresh-update_by,
}
use moeen.Market.Marketplace.{withdraw_row, withdraw_tables}
use moeen.Market.Propose.{insert_quote, is_active_quote_of, new_quote, submit_tables}
use moeen.Payments.Collect.{set_payment}
use moeen.Requests.Assign.{assign_row, assign_tables}
use moeen.Requests.Create.{rate_row}
use moeen.Requests.Opportunities.{is_open_provider_quote, reject_quote}
use moeen.Requests.Transition.{set_status, status_tables}

-- assignProvider.
pub assign_tables-Deals :
    (now rid pid : ℕ) (t : Tables) → Deals t → Deals (assign_tables now rid pid t)
unfolding assign_tables
assign_tables-Deals now rid pid t h = record {
  fresh = fresh-update_by t.next_request_id rid (assign_row pid) t.requests (λ r. refl) h.fresh;
  deals = λ j. omega (
    arith,
    h.deals j,
    deals-reject_quotes j (is_open_provider_quote rid) (reject_quote now) t.quotes
        (λ q e. ground arith) (λ q. refl),
    cap_at-update_by j rid (assign_row pid) t.requests (λ r. refl) (λ r. ground arith),
  );
  paid = λ j. omega (
    arith,
    h.paid j,
    approved-reject_quotes j (is_open_provider_quote rid) (reject_quote now) t.quotes
        (λ q e. ground arith) (λ q. refl),
  );
}

-- A transition to a status other than pending dispatch.
pub status_tables-Deals :
    (rid : ℕ) (status : RequestStatus) (t : Tables)
    → cap status ≡ 1
    → Deals t
    → Deals (status_tables rid status t)
unfolding status_tables
status_tables-Deals rid status t c h = record {
  fresh = fresh-update_by t.next_request_id rid (set_status status) t.requests (λ r. refl) h.fresh;
  deals = λ j. omega (
    arith,
    h.deals j,
    cap_at-update_by j rid (set_status status) t.requests (λ r. refl) (λ r. ground arith),
  );
  paid = h.paid;
}

-- rateRequest.
pub rate-Deals :
    (rid rating : ℕ) (comment : Option String) (t : Tables)
    → Deals t
    → Deals (record t {
      requests = update_by (λ (r : ServiceRequest). r.id) rid (rate_row rating comment) t.requests;
    })
rate-Deals rid rating comment t h = record {
  fresh =
      fresh-update_by t.next_request_id rid (rate_row rating comment) t.requests (λ r. refl)
        h.fresh;
  deals = λ j. omega (
    arith,
    h.deals j,
    cap_at-update_by j rid (rate_row rating comment) t.requests (λ r. refl) (λ r. omega arith),
  );
  paid = h.paid;
}

-- proposeQuote: no active quote, and a request that left pending dispatch.
pub insert_staff_quote-Deals :
    (rid amount : ℕ) (scope : String) (t : Tables) (r : ServiceRequest)
    → find_request rid t ≡ some r
    → cap r.status ≡ 1
    → find_first (is_active_quote_of rid) t.quotes ≡ none
    → Deals t
    → Deals (insert_quote rid none amount scope t)
unfolding insert_quote
insert_staff_quote-Deals rid amount scope t r found c free h =
    let q = new_quote rid none amount scope t in
    record {
      fresh = h.fresh;
      deals = λ j. ground (
        arith,
        h.deals j,
        total-append (λ x. if is_deal j x then 1 else 0) t.quotes (q ∷ []),
        find_first-none-total (λ x. if is_deal rid x then 1 else 0) (is_active_quote_of rid)
            t.quotes (λ x e. ground arith) free,
      );
      paid = λ j. ground (
        arith,
        h.paid j,
        total-append (λ x. if is_approved_for j x then 1 else 0) t.quotes (q ∷ []),
      );
    }

-- submitProviderQuote: a provider's proposal is no deal yet.
pub submit_tables-Deals :
    (rid pid amount : ℕ) (scope : String) (t : Tables)
    → Deals t
    → Deals (submit_tables rid pid amount scope t)
unfolding submit_tables
submit_tables-Deals rid pid amount scope t h =
    let q = new_quote rid (some pid) amount scope t in
    record {
      fresh = h.fresh;
      deals = λ j.
          ground
            (arith, h.deals j, total-append (λ x. if is_deal j x then 1 else 0) t.quotes (q ∷ []));
      paid = λ j. ground (
        arith,
        h.paid j,
        total-append (λ x. if is_approved_for j x then 1 else 0) t.quotes (q ∷ []),
      );
    }

-- withdrawProviderQuote.
pub withdraw_tables-Deals :
    (now pid : ℕ) (q : Quote) (t : Tables)
    → find_quote q.id t ≡ some q
    → is_proposed q.status ≡ true
    → Deals t
    → Deals (withdraw_tables now q pid t)
unfolding withdraw_tables
withdraw_tables-Deals now pid q t found is_open h = record {
  fresh = h.fresh;
  deals = λ j.
      omega
        (arith, h.deals j, deals-end_quote j q.id (withdraw_row now) t.quotes q found is_open refl);
  paid = λ j.
      omega (
        arith,
        h.paid j,
        approved-end_quote j q.id (withdraw_row now) t.quotes q found is_open refl,
      );
}

-- collectCashPayment and refundCashPayment.
pub set_payment-Deals :
    (id : ℕ) (f : Payment → Payment) (t : Tables)
    → ((p : Payment) → (f p).request_id ≡ p.request_id)
    → Deals t
    → Deals (set_payment id f t)
unfolding set_payment
set_payment-Deals id f t same h = record {
  fresh = h.fresh;
  deals = h.deals;
  paid = λ j. omega (
    arith,
    h.paid j,
    total-update_where-le (λ p. if is_payment_of j p then 1 else 0) (λ p. p.id == id) f t.payments
        (λ p e. ground (arith, same p)),
  );
}
