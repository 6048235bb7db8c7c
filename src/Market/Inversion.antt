-- ===== src/Market/Inversion.antt =====
-- What a transaction of the marketplace found when it committed, and the tables it left.
use Prim.Native.String.{String}
use moeen.Base.{
  ◌&&◌, ◌==◌, ◌∷◌, ◌≡◌, Bool, List, Option, [], any, arith, false, find_first, guard-eq-ok, holds,
  is_some, none, not, ok, or_fail-eq-ok, some, true, update_where, ℕ,
}
use moeen.Store.{
  AuditSpec, Db, Error, Opportunity, Quote, RequestStatus, ServiceRequest, Tables,
  active_quote_exists, assigned, find_quote, find_request, includes, is_open_opportunity,
  is_proposed, no_longer_pending, not_pending_dispatch, pending_dispatch, provider_quote_not_found,
  quote_conflict, quote_not_found, quote_too_late, request_not_found, staff_quote_in_marketplace,
  status_eq,
}
use moeen.Market.Decide.{Decision, decide_quote, decision_tables, is_approve, joined_quote}
use moeen.Market.Marketplace.{
  close_provider_opportunity, invite_providers_to_request, is_open_for_provider,
  withdraw_provider_quote, withdraw_tables,
}
use moeen.Market.Propose.{
  insert_quote, is_active_quote_by, is_active_quote_of, is_active_staff_quote_of, propose_quote,
  submit_provider_quote, submit_tables,
}
use moeen.Outbox.Writer.{Config}
use moeen.Requests.Opportunities.{close_opportunity, is_opportunity_of}

joined_quote_inv :
    (rid cid qid : ℕ) (t : Tables) (q : Quote) (r : ServiceRequest)
    → joined_quote rid cid qid t ≡ some (q, r)
    → (find_quote qid t ≡ some q)
      × (find_request rid t ≡ some r)
      × (q.request_id ≡ rid)
      × (holds r.customer_id cid ≡ true)
unfolding joined_quote
joined_quote_inv rid cid qid t q r e = ground arith

module _ (cfg : Config) (now : ℕ) (db db' : Db) where
  pub propose_quote_inv :
      (rid amount : ℕ) (scope : String) (audit : Option AuditSpec) (q : Quote)
      → propose_quote cfg now rid amount scope audit db ≡ ok (db', q)
      → (r : ServiceRequest) × (find_request rid db.tables ≡ some r)
        × (includes (assigned ∷ RequestStatus.on_the_way ∷ []) r.status ≡ true)
        × (find_first (is_active_quote_of rid) db.quotes ≡ none)
        × (any (λ (o : Opportunity). o.request_id == rid) db.opportunities ≡ false)
        × (db'.tables ≡ insert_quote rid none amount scope db.tables)
  unfolding propose_quote
  propose_quote_inv rid amount scope audit q e =
      let (r, found, e1) = or_fail-eq-ok (find_request rid db.tables) quote_too_late _ e in
      let (early, e2) =
        guard-eq-ok (includes (assigned ∷ RequestStatus.on_the_way ∷ []) r.status) quote_too_late _
          e1 in
      let (free, e3) =
        guard-eq-ok (not (is_some (find_first (is_active_quote_of rid) db.quotes)))
          active_quote_exists _ e2 in
      let (direct, e4) =
        guard-eq-ok (not (any (λ (o : Opportunity). o.request_id == rid) db.opportunities))
          staff_quote_in_marketplace _ e3 in
      (r, found, early, ground arith, ground arith, ground arith)

  pub submit_provider_quote_inv :
      (rid pid amount : ℕ) (scope : String) (q : Quote)
      → submit_provider_quote cfg now rid pid amount scope db ≡ ok (db', q)
      → (r : ServiceRequest) × (find_request rid db.tables ≡ some r)
        × (r.status ≡ pending_dispatch)
        × (find_first (is_active_quote_by rid pid) db.quotes ≡ none)
        × (db'.tables ≡ submit_tables rid pid amount scope db.tables)
  unfolding submit_provider_quote
  submit_provider_quote_inv rid pid amount scope q e =
      let (r, found, e1) = or_fail-eq-ok (find_request rid db.tables) request_not_found _ e in
      let (waits, e2) =
        guard-eq-ok (status_eq r.status pending_dispatch) not_pending_dispatch _ e1 in
      let (o, known, e3) =
        or_fail-eq-ok (find_first (is_opportunity_of rid pid) db.opportunities)
          Error.opportunity_closed _ e2 in
      let (invited, e4) =
        guard-eq-ok (is_open_opportunity o.status) Error.opportunity_closed _ e3 in
      let (market, e5) =
        guard-eq-ok (not (is_some (find_first (is_active_staff_quote_of rid) db.quotes)))
          staff_quote_in_marketplace _ e4 in
      let (first, e6) =
        guard-eq-ok (not (is_some (find_first (is_active_quote_by rid pid) db.quotes)))
          quote_conflict _ e5 in
      (r, found, ground arith, ground arith, ground arith)

  pub decide_quote_inv :
      (rid cid qid : ℕ) (decision : Decision) (row : Quote)
      → decide_quote cfg now rid cid qid decision db ≡ ok (db', row)
      → (q : Quote) × (r : ServiceRequest) × (find_quote qid db.tables ≡ some q)
        × (find_request rid db.tables ≡ some r)
        × (q.request_id ≡ rid)
        × (holds r.customer_id cid ≡ true)
        × (is_proposed q.status ≡ true)
        × ((is_approve decision
              && (is_some q.provider_id && not (status_eq r.status pending_dispatch)))
            ≡ false)
        × (db'.tables ≡ decision_tables now rid q decision db.tables)
  unfolding decide_quote
  decide_quote_inv rid cid qid decision row e =
      let (found, joined, e1) =
        or_fail-eq-ok (joined_quote rid cid qid db.tables) quote_not_found _ e in
      let (q, r) = found in
      let (quote, request, own, customer) = joined_quote_inv rid cid qid db.tables q r joined in
      let (timely, e2) =
        guard-eq-ok
          (not (
            is_approve decision
            && (is_some q.provider_id && not (status_eq r.status pending_dispatch))))
          no_longer_pending _ e1 in
      let (is_open, e3) = guard-eq-ok (is_proposed q.status) quote_not_found _ e2 in
      (q, r, quote, request, own, customer, is_open, ground arith, ground arith)

  pub withdraw_provider_quote_inv :
      (qid pid : ℕ) (u : Unit {0})
      → withdraw_provider_quote cfg now qid pid db ≡ ok (db', u)
      → (q : Quote) × (find_quote qid db.tables ≡ some q)
        × (holds q.provider_id pid ≡ true)
        × (is_proposed q.status ≡ true)
        × (db'.tables ≡ withdraw_tables now q pid db.tables)
  unfolding withdraw_provider_quote
  withdraw_provider_quote_inv qid pid u e =
      let (q, found, e1) = or_fail-eq-ok (find_quote qid db.tables) provider_quote_not_found _ e in
      let (own, e2) =
        guard-eq-ok (holds q.provider_id pid && is_proposed q.status) provider_quote_not_found _
          e1 in
      (q, found, ground arith, ground arith, ground arith)

  -- Invitations and closures move opportunities only.
  pub invite_providers_to_request_inv :
      (rid : ℕ) (pids : List ℕ) (audit : Option AuditSpec) (inserted : List ℕ)
      → invite_providers_to_request cfg now rid pids audit db ≡ ok (db', inserted)
      → (os : List Opportunity) × (db'.tables ≡ record db.tables { opportunities = os })
  unfolding invite_providers_to_request
  invite_providers_to_request_inv rid pids audit inserted e = (db'.opportunities, ground arith)

  pub close_provider_opportunity_inv :
      (rid pid : ℕ) (audit : Option AuditSpec) (closed : Bool)
      → close_provider_opportunity cfg now rid pid audit db ≡ ok (db', closed)
      → db'.tables ≡ record db.tables {
        opportunities =
            update_where (is_open_for_provider rid pid) close_opportunity db.opportunities;
      }
  unfolding close_provider_opportunity
  close_provider_opportunity_inv rid pid audit closed e = ground arith
