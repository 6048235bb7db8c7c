-- ===== src/Deals/Statements.antt =====
-- How the UPDATE and INSERT statements move the parts of the invariant.
use moeen.Base.{
  ◌++◌, ◌+◌, ◌<◌, ◌==◌, ◌∷◌, ◌≡◌, ◌≤◌, All, Bool, List, [], arith, count, false, find_by,
  find_by-update_by, if◌then◌else◌, none, some, total-update_first, total-update_where-eq,
  total-update_where-le, true, update_by, update_where, ℕ,
}
use moeen.Store.{
  Quote, QuoteStatus, ServiceRequest, is_active_quote, is_approved, is_proposed, pending_dispatch,
}
use moeen.Deals.{cap, cap_at, is_approved_for, is_deal}

-- A statement that moves no request back to pending dispatch lowers no cap.
pub cap_at-update_by :
    (j rid : ℕ) (f : ServiceRequest → ServiceRequest) (rs : List ServiceRequest)
    → ((r : ServiceRequest) → (f r).id ≡ r.id)
    → ((r : ServiceRequest) → cap r.status ≤ cap (f r).status)
    → cap_at j rs ≤ cap_at j (update_by (λ (r : ServiceRequest). r.id) rid f rs)
cap_at-update_by j rid f [] keeps grows = omega arith
cap_at-update_by j rid f (r ∷ rs) keeps grows =
    ground (arith, keeps r, grows r, cap_at-update_by j rid f rs keeps grows)

pub cap_at-update_by_self :
    (rid : ℕ) (f : ServiceRequest → ServiceRequest) (rs : List ServiceRequest) (r : ServiceRequest)
    → ((x : ServiceRequest) → (f x).id ≡ x.id)
    → find_by (λ (x : ServiceRequest). x.id) rid rs ≡ some r
    → cap_at rid (update_by (λ (x : ServiceRequest). x.id) rid f rs) ≡ cap (f r).status
cap_at-update_by_self rid f rs r keeps found =
    ground (arith, find_by-update_by (λ (x : ServiceRequest). x.id) rid rid f rs keeps)

-- A new request is pending dispatch.
pub cap_at-append_new :
    (j : ℕ) (rs : List ServiceRequest) (r : ServiceRequest)
    → r.status ≡ pending_dispatch
    → cap_at j (rs ++ (r ∷ [])) ≡ cap_at j rs
cap_at-append_new j [] r p = ground arith
cap_at-append_new j (x ∷ rs) r p = ground (arith, cap_at-append_new j rs r p)

pub fresh-update_by :
    (next rid : ℕ) (f : ServiceRequest → ServiceRequest) (rs : List ServiceRequest)
    → ((r : ServiceRequest) → (f r).id ≡ r.id)
    → All (λ (r : ServiceRequest). r.id < next) rs
    → All (λ (r : ServiceRequest). r.id < next) (update_by (λ (r : ServiceRequest). r.id) rid f rs)
fresh-update_by next rid f [] keeps h = tt
fresh-update_by next rid f (r ∷ rs) keeps h =
    ground (arith, keeps r, fresh-update_by next rid f rs keeps h.1)

-- Rejecting proposed quotes of providers changes neither count for any request.
pub deals-reject_quotes :
    (j : ℕ) (p : Quote → Bool) (f : Quote → Quote) (qs : List Quote)
    → ((q : Quote) → p q ≡ true → is_approved q.status ≡ false)
    → ((q : Quote) → (f q).status ≡ QuoteStatus.rejected)
    → count (is_deal j) (update_where p f qs) ≤ count (is_deal j) qs
deals-reject_quotes j p f qs guards rejects =
    total-update_where-le (λ q. if is_deal j q then 1 else 0) p f qs
      (λ q h. ground (arith, rejects q))

pub approved-reject_quotes :
    (j : ℕ) (p : Quote → Bool) (f : Quote → Quote) (qs : List Quote)
    → ((q : Quote) → p q ≡ true → is_approved q.status ≡ false)
    → ((q : Quote) → (f q).status ≡ QuoteStatus.rejected)
    → count (is_approved_for j) (update_where p f qs) ≡ count (is_approved_for j) qs
approved-reject_quotes j p f qs guards rejects =
    total-update_where-eq (λ q. if is_approved_for j q then 1 else 0) p f qs
      (λ q h. ground (arith, rejects q, guards q h))

module _ (j qid : ℕ) (f : Quote → Quote) (qs : List Quote) (q : Quote)
    (found : find_by (λ (x : Quote). x.id) qid qs ≡ some q)
    (is_open : is_proposed q.status ≡ true) where
  -- Ending a proposed quote.
  pub deals-end_quote :
      is_active_quote (f q).status ≡ false
      → count (is_deal j) (update_by (λ (x : Quote). x.id) qid f qs) ≤ count (is_deal j) qs
  deals-end_quote ends = ground (
    arith,
    total-update_first (λ x. if is_deal j x then 1 else 0) (λ x. x.id == qid) f qs q found,
  )

  pub approved-end_quote :
      is_active_quote (f q).status ≡ false
      → count (is_approved_for j) (update_by (λ (x : Quote). x.id) qid f qs)
        ≡ count (is_approved_for j) qs
  approved-end_quote ends = ground (
    arith,
    total-update_first (λ x. if is_approved_for j x then 1 else 0) (λ x. x.id == qid) f qs q found,
  )

  -- Approving a staff quote, which counted before.
  pub deals-approve_staff :
      (f q).status ≡ QuoteStatus.approved
      → (f q).request_id ≡ q.request_id
      → q.provider_id ≡ none
      → count (is_deal j) (update_by (λ (x : Quote). x.id) qid f qs) ≡ count (is_deal j) qs
  deals-approve_staff approves same staff = ground (
    arith,
    total-update_first (λ x. if is_deal j x then 1 else 0) (λ x. x.id == qid) f qs q found,
  )

  -- Approving a provider's quote adds one deal to its request.
  pub deals-approve_provider :
      (pid : ℕ)
      → (f q).status ≡ QuoteStatus.approved
      → (f q).request_id ≡ q.request_id
      → q.provider_id ≡ some pid
      → count (is_deal j) (update_by (λ (x : Quote). x.id) qid f qs)
        ≡ (if q.request_id == j then 1 else 0) + count (is_deal j) qs
  deals-approve_provider pid approves same owned = ground (
    arith,
    total-update_first (λ x. if is_deal j x then 1 else 0) (λ x. x.id == qid) f qs q found,
  )

  pub approved-approve :
      (f q).status ≡ QuoteStatus.approved
      → (f q).request_id ≡ q.request_id
      → count (is_approved_for j) (update_by (λ (x : Quote). x.id) qid f qs)
        ≡ (if q.request_id == j then 1 else 0) + count (is_approved_for j) qs
  approved-approve approves same = ground (
    arith,
    total-update_first (λ x. if is_approved_for j x then 1 else 0) (λ x. x.id == qid) f qs q found,
  )

pub cap_at-le_one : (rid : ℕ) (rs : List ServiceRequest) → cap_at rid rs ≤ 1
cap_at-le_one rid [] = omega arith
cap_at-le_one rid (r ∷ rs) = ground (arith, cap_at-le_one rid rs)
