-- ===== src/Deals/Defs.antt =====
-- The invariant of the quotes and payments of every request.
use moeen.Base.{
  ◌&&◌, ◌<◌, ◌==◌, ◌||◌, ◌≤◌, All, Bool, List, Option, count, find_by, is_some, none, not, some, ℕ,
}
use moeen.Store.{
  Payment, Quote, RequestStatus, ServiceRequest, Tables, is_approved, is_proposed, pending_dispatch,
}

-- A quote that binds the request: approved by the customer, or proposed by the staff.
abbrev pub is_deal : ℕ → Quote → Bool
is_deal rid q =
    q.request_id == rid
    && (is_approved q.status || (is_proposed q.status && not (is_some q.provider_id)))

abbrev pub is_approved_for : ℕ → Quote → Bool
is_approved_for rid q = q.request_id == rid && is_approved q.status

abbrev pub is_payment_of : ℕ → Payment → Bool
is_payment_of rid p = p.request_id == rid

-- How many such quotes a status allows: none while the request is pending dispatch.
abbrev pub cap : RequestStatus → ℕ
cap pending_dispatch = 0
cap _ = 1

abbrev pub cap_of : Option ServiceRequest → ℕ
cap_of none = 0
cap_of (some r) = cap r.status

abbrev pub cap_at : ℕ → List ServiceRequest → ℕ
cap_at rid requests = cap_of (find_by (λ (r : ServiceRequest). r.id) rid requests)

pub record HasOneDeal (requests : List ServiceRequest) (quotes : List Quote)
    (payments : List Payment) (next : ℕ) : Type 0 where
  pub fresh : All (λ (r : ServiceRequest). r.id < next) requests
  pub deals : (rid : ℕ) → count (is_deal rid) quotes ≤ cap_at rid requests
  pub paid : (rid : ℕ) → count (is_payment_of rid) payments ≤ count (is_approved_for rid) quotes

abbrev pub Deals : Tables → Type 0
Deals t = HasOneDeal t.requests t.quotes t.payments t.next_request_id
