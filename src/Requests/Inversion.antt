-- ===== src/Requests/Inversion.antt =====
-- What a transaction of the life of a request found when it committed, and the tables it left.
use Prim.Native.String.{String}
use moeen.Base.{
  ◌&&◌, ◌++◌, ◌∷◌, ◌≡◌, List, Option, [], arith, false, guard-eq-ok, holds, is_some, none, not, ok,
  or_fail-eq-ok, some, suc, true, update_by, ℕ,
}
use moeen.Store.{
  AuditSpec, Db, Opportunity, Point, Provider, ProviderStatus, RequestStatus, ServiceRequest,
  assigned_request_not_found, find_provider, find_request, includes, invalid_transition,
  not_pending_dispatch, pending_dispatch, provider_must_start_tracking, provider_not_found,
  request_not_found, status_eq, unrated_not_found, unsupported_transition,
}
use moeen.Outbox.Writer.{Config}
use moeen.Requests.Assign.{assign_provider, assign_tables}
use moeen.Requests.Create.{Submission, arbitrate, create, new_request, rate_request, rate_row}
use moeen.Requests.Opportunities.{is_eligible}
use moeen.Requests.Transition.{
  allowed_previous_statuses, provider_previous_statuses, provider_tracking_step, status_tables,
  stop_if_terminal, to_status, update_status, update_status_for_provider,
}

module _ (cfg : Config) (now : ℕ) (db db' : Db) where
  pub assign_provider_inv :
      (rid pid : ℕ) (audit : Option AuditSpec) (row : ServiceRequest)
      → assign_provider cfg now rid pid audit db ≡ ok (db', row)
      → (r : ServiceRequest) × (find_request rid db.tables ≡ some r)
        × (r.status ≡ pending_dispatch)
        × (p : Provider) × (find_provider pid db.tables ≡ some p)
        × (is_eligible r.service_id p ≡ true)
        × (db'.tables ≡ assign_tables now rid pid db.tables)
  unfolding assign_provider
  assign_provider_inv rid pid audit row e =
      let (r, found, e1) = or_fail-eq-ok (find_request rid db.tables) request_not_found _ e in
      let (waits, e2) =
        guard-eq-ok (status_eq r.status pending_dispatch) not_pending_dispatch _ e1 in
      let (p, known, e3) = or_fail-eq-ok (find_provider pid db.tables) provider_not_found _ e2 in
      let (able, e4) = guard-eq-ok (is_eligible r.service_id p) provider_not_found _ e3 in
      (r, found, ground arith, p, known, able, ground arith)

  pub update_status_inv :
      (rid : ℕ) (status : RequestStatus) (audit : Option AuditSpec) (u : Unit {0})
      → update_status cfg now rid status audit db ≡ ok (db', u)
      → (previous : List RequestStatus) × (allowed_previous_statuses status ≡ some previous)
        × (r : ServiceRequest) × (find_request rid db.tables ≡ some r)
        × (includes previous r.status ≡ true)
        × ((status_eq status RequestStatus.on_the_way && cfg.tracking_enabled) ≡ false)
        × (db'.tables ≡ stop_if_terminal now rid status (status_tables rid status db.tables))
  unfolding update_status
  update_status_inv rid status audit u e =
      let (previous, allowed, e1) =
        or_fail-eq-ok (allowed_previous_statuses status) unsupported_transition _ e in
      let (r, found, e2) = or_fail-eq-ok (find_request rid db.tables) invalid_transition _ e1 in
      let (next, e3) = guard-eq-ok (includes previous r.status) invalid_transition _ e2 in
      let (staff, e4) =
        guard-eq-ok (not (status_eq status RequestStatus.on_the_way && cfg.tracking_enabled))
          provider_must_start_tracking _ e3 in
      (previous, allowed, r, found, next, ground arith, ground arith)

  pub update_status_for_provider_inv :
      (rid pid : ℕ) (target : ProviderStatus) (u : Unit {0})
      → update_status_for_provider cfg now rid pid target db ≡ ok (db', u)
      → (r : ServiceRequest) × (find_request rid db.tables ≡ some r)
        × (holds r.assigned_provider_id pid ≡ true)
        × (includes (provider_previous_statuses target) r.status ≡ true)
        × (provider_tracking_step cfg now rid pid target
              (status_tables rid (to_status target) db.tables)
            ≡ ok db'.tables)
  unfolding update_status_for_provider
  update_status_for_provider_inv rid pid target u e =
      let (r, found, e1) =
        or_fail-eq-ok (find_request rid db.tables) assigned_request_not_found _ e in
      let (owned, e2) =
        guard-eq-ok (holds r.assigned_provider_id pid) assigned_request_not_found _ e1 in
      let (next, e3) =
        guard-eq-ok (includes (provider_previous_statuses target) r.status) invalid_transition _
          e2 in
      (r, found, owned, next, ground arith)

  pub create_inv :
      (service cid : ℕ) (location : Option Point) (submission : Option Submission)
      (row : ServiceRequest)
      → create cfg now service cid location submission db ≡ ok (db', row)
      → (arbitrate cid submission db.tables ≡ ok tt)
        × (row ≡ new_request service cid location submission db.tables)
        × (os : List Opportunity) × (db'.tables ≡ record db.tables {
          requests = db.requests ++ (new_request service cid location submission db.tables ∷ []);
          next_request_id = suc db.next_request_id;
          opportunities = os;
        })
  unfolding create
  create_inv service cid location submission row e =
      (ground arith, ground arith, db'.opportunities, ground arith)

  pub rate_request_inv :
      (rid cid rating : ℕ) (comment : Option String) (u : Unit {0})
      → rate_request rid cid rating comment db ≡ ok (db', u)
      → (r : ServiceRequest) × (find_request rid db.tables ≡ some r)
        × (holds r.customer_id cid ≡ true)
        × (r.status ≡ RequestStatus.completed)
        × (r.rating ≡ none)
        × (db'.tables ≡ record db.tables {
          requests =
              update_by (λ (x : ServiceRequest). x.id) rid (rate_row rating comment) db.requests;
        })
  unfolding rate_request
  rate_request_inv rid cid rating comment u e =
      let (r, found, e1) = or_fail-eq-ok (find_request rid db.tables) unrated_not_found _ e in
      let (fit, e2) =
        guard-eq-ok
          (holds r.customer_id cid
            && (status_eq r.status RequestStatus.completed && not (is_some r.rating)))
          unrated_not_found _ e1 in
      (r, found, ground arith, ground arith, ground arith, ground arith)
