-- ===== src/System/TrackedTables.antt =====
-- How the statements of the transactions move the invariant of live tracking.
use moeen.Base.{
  ◌&&◌, ◌||◌, ◌≡◌, Bool-cases, Option, arith, false, find_by-update_by, holds, inl, inr, is_some,
  none, not, ok, refl, some, true, update_by, ℕ,
}
use moeen.Store.{
  ProviderStatus, Quote, QuoteStatus, RequestStatus, ServiceRequest, StopReason, Tables,
  VerificationStatus, find_request, is_verified, pending_dispatch, status_eq,
}
use moeen.Market.Decide.{
  Decision, decide_tables, decision_tables, insert_payment, is_approve, mark_rejected, settle,
  win_row, win_tables,
}
use moeen.Outbox.Writer.{Config}
use moeen.Providers.Verify.{set_provider, verification_tables, verify_row}
use moeen.Requests.Transition.{
  begin_tracking, provider_tracking_step, set_status, status_tables, stop_if_terminal, to_status,
}
use moeen.System.Moves.{Edge, begins, calls_off, departs, drops, finishes, turns_back}
use moeen.System.Progress.{is_final}
use moeen.Tracking.Carried.{Carried, IsCarried, request_key, stop-Carried, update-Carried}
use moeen.Tracking.Live.{open-Carried, suspend-Carried}
use moeen.Tracking.Sample.{is_trackable}
use moeen.Tracking.Session.{insert_session, start_provider_tracking, stop_provider_tracking}

-- The tables of the marketplace and the payments are no part of the tracking.
abbrev pub SameTracking : Tables → Tables → Type 0
SameTracking t t' =
    (t'.requests ≡ t.requests) × (t'.sessions ≡ t.sessions) × (t'.positions ≡ t.positions)

pub same-Carried : (t t' : Tables) → SameTracking t t' → Carried t → Carried t'
same-Carried t t' (r, s, p) h = rw (r, s, p) h

-- A request that waits is not tracked, so it may get a provider.
pub claim-Carried :
    (rid : ℕ) (f : ServiceRequest → ServiceRequest) (r : ServiceRequest) (t : Tables)
    → ((x : ServiceRequest) → (f x).id ≡ x.id)
    → find_request rid t ≡ some r
    → r.status ≡ pending_dispatch
    → Carried t
    → IsCarried (update_by request_key rid f t.requests) t.sessions t.positions
claim-Carried rid f r t keeps found waits h =
    update-Carried rid f t.requests keeps r t.sessions t.positions found
      (λ on. absurd (ground arith)) h

-- A transition to a status that is not final.
pub go_on-Carried :
    (rid : ℕ) (status : RequestStatus) (r : ServiceRequest) (t : Tables)
    → find_request rid t ≡ some r
    → is_trackable status ≡ true
    → Carried t
    → Carried (status_tables rid status t)
unfolding status_tables
go_on-Carried rid status r t found on h =
    update-Carried rid (set_status status) t.requests (λ x. refl) r t.sessions t.positions found
      (λ was. (on, refl)) h

pub end-Carried :
    (now rid : ℕ) (status : RequestStatus) (reason : StopReason) (t : Tables)
    → Carried t
    → Carried (stop_provider_tracking now rid reason (status_tables rid status t))
unfolding status_tables stop_provider_tracking
end-Carried now rid status reason t h =
    stop-Carried rid (set_status status) t.requests (λ x. refl) now reason t refl h

Edge-ends : {a b : RequestStatus} → Edge a b → (is_trackable b || is_final b) ≡ true
Edge-ends departs = refl
Edge-ends begins = refl
Edge-ends finishes = refl
Edge-ends drops = refl
Edge-ends calls_off = refl
Edge-ends turns_back = refl

pub transition-Carried :
    (now rid : ℕ) (status : RequestStatus) (r : ServiceRequest) (t : Tables)
    → find_request rid t ≡ some r
    → Edge r.status status
    → Carried t
    → Carried (stop_if_terminal now rid status (status_tables rid status t))
unfolding stop_if_terminal
transition-Carried now rid RequestStatus.on_the_way r t found edge h =
    go_on-Carried rid RequestStatus.on_the_way r t found refl h
transition-Carried now rid RequestStatus.in_progress r t found edge h =
    go_on-Carried rid RequestStatus.in_progress r t found refl h
transition-Carried now rid RequestStatus.completed r t found edge h =
    end-Carried now rid RequestStatus.completed StopReason.completed t h
transition-Carried now rid RequestStatus.cancelled r t found edge h =
    end-Carried now rid RequestStatus.cancelled StopReason.cancelled t h
transition-Carried now rid RequestStatus.assigned r t found edge h =
    absurd (ground (arith, Edge-ends edge))
transition-Carried now rid RequestStatus.pending_dispatch r t found edge h =
    absurd (ground (arith, Edge-ends edge))

pub start-Carried :
    (now rid pid : ℕ) (r : ServiceRequest) (t t' : Tables)
    → find_request rid t ≡ some r
    → is_trackable r.status ≡ true
    → holds r.assigned_provider_id pid ≡ true
    → start_provider_tracking now rid pid t ≡ ok t'
    → Carried t
    → Carried t'
unfolding start_provider_tracking
start-Carried now rid pid r t t' found on own e h =
    let same : t' ≡ insert_session now rid pid t = ground arith in
    rw same (open-Carried now rid pid r t found on own h)

pub provider_step-Carried :
    (cfg : Config) (now rid pid : ℕ) (target : ProviderStatus) (r : ServiceRequest) (t t' : Tables)
    → find_request rid t ≡ some r
    → holds r.assigned_provider_id pid ≡ true
    → provider_tracking_step cfg now rid pid target (status_tables rid (to_status target) t) ≡ ok t'
    → Carried t
    → Carried t'
unfolding provider_tracking_step begin_tracking status_tables stop_if_terminal
provider_step-Carried cfg now rid pid ProviderStatus.on_the_way r t t' found own e h =
    let next = go_on-Carried rid RequestStatus.on_the_way r t found refl h in
    elim (Bool-cases cfg.tracking_enabled) [
      | inl on ↦
          start-Carried now rid pid (set_status RequestStatus.on_the_way r)
            (status_tables rid RequestStatus.on_the_way t) t'
            (ground (
              arith,
              find_by-update_by request_key rid rid (set_status RequestStatus.on_the_way) t.requests
                  (λ x. refl),
            ))
            refl own (ground arith) next
      | inr off ↦
          let same : t' ≡ status_tables rid RequestStatus.on_the_way t = ground arith in
          rw same next
    ]
provider_step-Carried cfg now rid pid ProviderStatus.in_progress r t t' found own e h =
    let same : t' ≡ status_tables rid RequestStatus.in_progress t = ground arith in
    rw same (go_on-Carried rid RequestStatus.in_progress r t found refl h)
provider_step-Carried cfg now rid pid ProviderStatus.completed r t t' found own e h =
    let same : t'
        ≡ stop_if_terminal now rid RequestStatus.completed
            (status_tables rid RequestStatus.completed t) =
      ground arith in
    rw same (end-Carried now rid RequestStatus.completed StopReason.completed t h)

pub settle-Carried :
    (now rid qid : ℕ) (owner : Option ℕ) (r : ServiceRequest) (t : Tables)
    → find_request rid t ≡ some r
    → (is_some owner && not (status_eq r.status pending_dispatch)) ≡ false
    → Carried t
    → Carried (settle now rid qid owner t)
unfolding settle win_tables
settle-Carried now rid qid none r t found timely h = h
settle-Carried now rid qid (some pid) r t found timely h =
    claim-Carried rid (win_row pid) r t (λ x. refl) found (ground arith) h

pub decision-Carried :
    (now rid : ℕ) (q : Quote) (r : ServiceRequest) (decision : Decision) (t : Tables)
    → find_request rid t ≡ some r
    → (is_approve decision && (is_some q.provider_id && not (status_eq r.status pending_dispatch)))
      ≡ false
    → Carried t
    → Carried (decision_tables now rid q decision t)
unfolding decision_tables decide_tables insert_payment mark_rejected
decision-Carried now rid q r Decision.approve t found timely h =
    settle-Carried now rid q.id q.provider_id r
      (insert_payment rid q (decide_tables now q.id QuoteStatus.approved t)) found timely h
decision-Carried now rid q r Decision.reject t found timely h =
    same-Carried t (decision_tables now rid q Decision.reject t)
      (ground arith, ground arith, ground arith) h

pub verification-Carried :
    (cfg : Config) (now pid : ℕ) (status : VerificationStatus) (t : Tables)
    → Carried t
    → Carried (verification_tables cfg now pid status t)
unfolding verification_tables set_provider
verification-Carried cfg now pid status t h =
    elim (Bool-cases (not (is_verified status) && cfg.tracking_enabled)) [
      | inl e ↦ rw e (suspend-Carried now pid (set_provider pid (verify_row status) t) h)
      | inr e ↦ rw e h
    ]
