-- ===== src/Deals/Decision.antt =====
-- decideQuote and create, against the invariant of Deals.
use moeen.Base.{
  ◌&&◌, ◌++◌, ◌+◌, ◌<◌, ◌==◌, ◌∷◌, ◌≡◌, ◌≤◌, All-append, All-mono, Bool, List, Option, [], arith,
  count, false, if◌then◌else◌, is_some, none, not, refl, some, suc, total-append, true, update_by,
  ℕ,
}
use moeen.Store.{
  Opportunity, Point, Quote, QuoteStatus, ServiceRequest, Tables, find_quote, find_request,
  is_proposed, pending_dispatch, status_eq,
}
use moeen.Deals.{Deals, is_approved_for, is_payment_of}
use moeen.Deals.Statements.{
  approved-approve, approved-end_quote, approved-reject_quotes, cap_at-append_new, cap_at-update_by,
  cap_at-update_by_self, deals-approve_provider, deals-approve_staff, deals-end_quote,
  deals-reject_quotes, fresh-update_by,
}
use moeen.Market.Decide.{
  Decision, decide_row, decide_tables, decision_tables, insert_payment, is_approve, mark_rejected,
  new_payment, settle, win_row, win_tables,
}
use moeen.Requests.Create.{Submission, new_request}
use moeen.Requests.Opportunities.{is_open_provider_quote, reject_quote}

count-insert_payment :
    (j rid : ℕ) (q : Quote) (t : Tables)
    → count (is_payment_of j) (insert_payment rid q t).payments
      ≤ (if rid == j then 1 else 0) + count (is_payment_of j) t.payments
unfolding insert_payment
count-insert_payment j rid q t = ground (
  arith,
  total-append (λ x. if is_payment_of j x then 1 else 0) t.payments (new_payment rid q t ∷ []),
)

module _ (now rid : ℕ) (q : Quote) (t : Tables) (found : find_quote q.id t ≡ some q)
    (is_open : is_proposed q.status ≡ true) (own : q.request_id ≡ rid) (h : Deals t) where
  abbrev approved_tables : Tables
  approved_tables = insert_payment rid q (decide_tables now q.id QuoteStatus.approved t)

  abbrev approve_row : Quote → Quote
  approve_row = decide_row now QuoteStatus.approved

  paid-approve :
      (j : ℕ)
      → count (is_payment_of j) approved_tables.payments
        ≤ count (is_approved_for j) (update_by (λ (x : Quote). x.id) q.id approve_row t.quotes)
  unfolding decide_tables
  paid-approve j = ground (
    arith,
    h.paid j,
    count-insert_payment j rid q (decide_tables now q.id QuoteStatus.approved t),
    approved-approve j q.id approve_row t.quotes q found is_open refl refl,
  )

  approve_staff-Deals : q.provider_id ≡ none → Deals approved_tables
  unfolding decide_tables insert_payment
  approve_staff-Deals staff = record {
    fresh = h.fresh;
    deals = λ j. ground (
      arith,
      h.deals j,
      deals-approve_staff j q.id approve_row t.quotes q found is_open refl refl staff,
    );
    paid = paid-approve;
  }

  -- The provider of the approved quote wins a request that is pending dispatch.
  approve_provider-Deals :
      (pid : ℕ) (r : ServiceRequest)
      → q.provider_id ≡ some pid
      → find_request rid t ≡ some r
      → r.status ≡ pending_dispatch
      → Deals (win_tables now rid q.id pid approved_tables)
  unfolding win_tables decide_tables insert_payment
  approve_provider-Deals pid r owned request waiting =
      let approved = update_by (λ (x : Quote). x.id) q.id approve_row t.quotes in
      let losers : (x : Quote) → Bool = λ x. is_open_provider_quote rid x && not (x.id == q.id) in
      record {
        fresh = fresh-update_by t.next_request_id rid (win_row pid) t.requests (λ x. refl) h.fresh;
        deals = λ j. ground (
          arith,
          h.deals j,
          deals-reject_quotes j losers (reject_quote now) approved (λ x e. ground arith)
              (λ x. refl),
          deals-approve_provider j q.id approve_row t.quotes q found is_open pid refl refl owned,
          cap_at-update_by j rid (win_row pid) t.requests (λ x. refl) (λ x. ground arith),
          cap_at-update_by_self rid (win_row pid) t.requests r (λ x. refl) request,
        );
        paid = λ j. omega (
          arith,
          paid-approve j,
          approved-reject_quotes j losers (reject_quote now) approved (λ x e. ground arith)
              (λ x. refl),
        );
      }

  reject-Deals : Deals (decide_tables now q.id QuoteStatus.rejected t)
  unfolding decide_tables
  reject-Deals = record {
    fresh = h.fresh;
    deals = λ j. omega (
      arith,
      h.deals j,
      deals-end_quote j q.id (decide_row now QuoteStatus.rejected) t.quotes q found is_open refl,
    );
    paid = λ j. omega (
      arith,
      h.paid j,
      approved-end_quote j q.id (decide_row now QuoteStatus.rejected) t.quotes q found is_open refl,
    );
  }

mark_rejected-Deals :
    (rid : ℕ) (o : Option ℕ) (t : Tables) → Deals t → Deals (mark_rejected rid o t)
unfolding mark_rejected
mark_rejected-Deals rid none t h = h
mark_rejected-Deals rid (some pid) t h = h

module _ (now rid : ℕ) (q : Quote) (r : ServiceRequest) (t : Tables)
    (found : find_quote q.id t ≡ some q) (is_open : is_proposed q.status ≡ true)
    (own : q.request_id ≡ rid) (request : find_request rid t ≡ some r) (h : Deals t) where
  settle-Deals :
      (o : Option ℕ)
      → q.provider_id ≡ o
      → (is_some o && not (status_eq r.status pending_dispatch)) ≡ false
      → Deals (
          settle now rid q.id o
            (insert_payment rid q (decide_tables now q.id QuoteStatus.approved t)))
  unfolding settle
  settle-Deals none e waits = approve_staff-Deals now rid q t found is_open own h e
  settle-Deals (some pid) e waits =
      approve_provider-Deals now rid q t found is_open own h pid r e request (ground arith)

  -- Both decisions keep the invariant, under the guards of decideQuote.
  pub decision_tables-Deals :
      (decision : Decision)
      → (is_approve decision
          && (is_some q.provider_id && not (status_eq r.status pending_dispatch)))
        ≡ false
      → Deals (decision_tables now rid q decision t)
  unfolding decision_tables
  decision_tables-Deals Decision.approve waits = settle-Deals q.provider_id refl waits
  decision_tables-Deals Decision.reject waits =
      mark_rejected-Deals rid q.provider_id (decide_tables now q.id QuoteStatus.rejected t)
        (reject-Deals now rid q t found is_open own h)

-- create: a fresh identifier, pending dispatch.
pub create-Deals :
    (service cid : ℕ) (location : Option Point) (submission : Option Submission)
    (os : List Opportunity) (t : Tables)
    → Deals t
    → Deals (record t {
      requests = t.requests ++ (new_request service cid location submission t ∷ []);
      next_request_id = suc t.next_request_id;
      opportunities = os;
    })
create-Deals service cid location submission os t h =
    let row = new_request service cid location submission t in
    record {
      fresh =
          All-append (λ (r : ServiceRequest). r.id < suc t.next_request_id) t.requests (row ∷ [])
            (All-mono (λ (r : ServiceRequest). r.id < t.next_request_id)
              (λ (r : ServiceRequest). r.id < suc t.next_request_id) t.requests (λ r e. omega arith)
              h.fresh)
            (omega arith, tt);
      deals = λ j. omega (arith, h.deals j, cap_at-append_new j t.requests row refl);
      paid = h.paid;
    }
