-- ===== src/Tracking/Live.antt =====
-- The stops, the starts, the samples and the retention, against the invariant of Tracking/Carried.
use moeen.Base.{
  ◌&&◌, ◌++◌, ◌==◌, ◌∷◌, ◌≡◌, All, All-append, All-delete_where-to, All-mono, All-update_first,
  All-update_where, Bool, Bool-cases, List, Option, [], all, any, any-append, any-find_first,
  any-update_first, any-update_where, arith, false, find_by-key, holds, inl, inr, is_some, none,
  refl, select, some, true, update_by, update_where, ℕ,
}
use moeen.Store.{
  CurrentPosition, LocationSample, Point, ServiceRequest, StopReason, Tables, TrackingSession,
  find_request, find_session, is_active_session,
}
use moeen.Providers.Verify.{is_active_session_of, suspend_session, suspend_tracking}
use moeen.Tracking.Arrival.{record_evidence, record_qualifying}
use moeen.Tracking.Carried.{Carried, is_rightful, is_source}
use moeen.Tracking.Retention.{
  All-delete_oldest, any-delete_oldest, delete_oldest, prune_tables, session_age,
}
use moeen.Tracking.Sample.{
  Sample, accept_tables, distance_to, is_trackable, new_position, qualifies, upsert_position,
}
use moeen.Tracking.Session.{insert_session, is_stoppable, stop_provider_tracking, stop_session}

-- The operations staff stop the tracking of a request that goes on.
pub halt-Carried :
    (now rid : ℕ) (reason : StopReason) (t : Tables)
    → Carried t
    → Carried (stop_provider_tracking now rid reason t)
unfolding stop_provider_tracking
halt-Carried now rid reason t h = record {
  rightful =
      All-update_where (λ s. is_rightful t.requests s ≡ true)
        (λ (s : TrackingSession). s.request_id == rid && is_stoppable reason s)
        (stop_session now reason) t.sessions (λ s e k. refl) h.rightful;
  sourced =
      All-delete_where-to (λ p. any (is_source p) t.sessions ≡ true)
        (λ p. any (is_source p) (stop_provider_tracking now rid reason t).sessions ≡ true)
        (λ (p : CurrentPosition). p.request_id == rid) t.positions
        (λ p e k.
          any-update_where (is_source p)
            (λ (s : TrackingSession). s.request_id == rid && is_stoppable reason s)
            (stop_session now reason) t.sessions (λ s stopped source. absurd (ground arith)) k)
        h.sourced;
}

-- The first transition of an assigned request opens a session for its provider.
pub open-Carried :
    (now rid pid : ℕ) (r : ServiceRequest) (t : Tables)
    → find_request rid t ≡ some r
    → is_trackable r.status ≡ true
    → holds r.assigned_provider_id pid ≡ true
    → Carried t
    → Carried (insert_session now rid pid t)
open-Carried now rid pid r t found on own h = elim (Bool-cases (is_some (find_session rid t))) [
  | inl e ↦ rw e h
  | inr e ↦ rw e (record {
    rightful =
        All-append (λ s. is_rightful t.requests s ≡ true) t.sessions (_ ∷ []) h.rightful
          (ground arith, tt);
    sourced =
        All-mono (λ p. any (is_source p) t.sessions ≡ true)
          (λ p. any (is_source p) (t.sessions ++ (_ ∷ [])) ≡ true) t.positions
          (λ p k. any-append (is_source p) t.sessions (_ ∷ []) k) h.sourced;
  })
]

-- The source of a position is among the sessions that the suspension of its provider finds.
source-is_suspended :
    (p : CurrentPosition) (ss : List TrackingSession)
    → any (is_source p) ss ≡ true
    → any
        (λ (s : TrackingSession). s.request_id == p.request_id)
        (select (is_active_session_of p.provider_id) ss)
      ≡ true
source-is_suspended p [] e = absurd (ground arith)
source-is_suspended p (s ∷ ss) e = ground (arith, source-is_suspended p ss)

suspend-sourced :
    (now pid : ℕ) (p : CurrentPosition) (ss : List TrackingSession)
    → (p.provider_id == pid
        && any
            (λ (s : TrackingSession). s.request_id == p.request_id)
            (select (is_active_session_of pid) ss))
      ≡ false
    → any (is_source p) ss ≡ true
    → any (is_source p) (update_where (is_active_session_of pid) (suspend_session now) ss) ≡ true
suspend-sourced now pid p ss left e = elim (Bool-cases (p.provider_id == pid)) [
  | inl same ↦
      let own : p.provider_id ≡ pid = ground arith in
      absurd (ground (arith, own, source-is_suspended p ss e))
  | inr other ↦
      any-update_where (is_source p) (is_active_session_of pid) (suspend_session now) ss
        (λ s mine source. absurd (ground arith)) e
]

-- A suspended provider's sessions and positions.
pub suspend-Carried : (now pid : ℕ) (t : Tables) → Carried t → Carried (suspend_tracking now pid t)
unfolding suspend_tracking
suspend-Carried now pid t h = record {
  rightful =
      All-update_where (λ s. is_rightful t.requests s ≡ true) (is_active_session_of pid)
        (suspend_session now) t.sessions (λ s e k. refl) h.rightful;
  sourced =
      All-delete_where-to (λ p. any (is_source p) t.sessions ≡ true)
        (λ p. any (is_source p) (suspend_tracking now pid t).sessions ≡ true)
        (λ (p : CurrentPosition).
          p.provider_id == pid
          && any (λ (s : TrackingSession). s.request_id == p.request_id)
              (select (is_active_session_of pid) t.sessions))
        t.positions (λ p e k. suspend-sourced now pid p t.sessions e k) h.sourced;
}

-- An accepted sample: the evidence of the session moves, and the position is the session's.
All-upsert_position :
    (P : CurrentPosition → Type 0) (p : CurrentPosition) (ps : List CurrentPosition)
    → P p
    → All P ps
    → All P (upsert_position p ps)
All-upsert_position P p [] new all = (new, tt)
All-upsert_position P p (x ∷ ps) new all = elim (Bool-cases (x.request_id == p.request_id)) [
  | inl e ↦ rw e (new, all.1)
  | inr e ↦ rw e (all.0, All-upsert_position P p ps new all.1)
]

record_evidence-same :
    (qualifying : Bool) (captured received : ℕ) (s : TrackingSession)
    → ((record_evidence qualifying captured received s).request_id ≡ s.request_id)
      × ((record_evidence qualifying captured received s).provider_id ≡ s.provider_id)
      × ((record_evidence qualifying captured received s).state ≡ s.state)
unfolding record_evidence record_qualifying
record_evidence-same true captured received s = (refl, refl, refl)
record_evidence-same false captured received s = (refl, refl, refl)

record_evidence-is_source :
    (qualifying : Bool) (captured received : ℕ) (s : TrackingSession) (p : CurrentPosition)
    → is_source p s ≡ true
    → is_source p (record_evidence qualifying captured received s) ≡ true
record_evidence-is_source q captured received s p h =
    let (request, provider, state) = record_evidence-same q captured received s in ground arith

record_evidence-is_rightful :
    (qualifying : Bool) (captured received : ℕ) (s : TrackingSession) (rs : List ServiceRequest)
    → is_rightful rs s ≡ true
    → is_rightful rs (record_evidence qualifying captured received s) ≡ true
record_evidence-is_rightful q captured received s rs h =
    let (request, provider, state) = record_evidence-same q captured received s in
    rw (request, provider, state) h

pub accept-Carried :
    (distance : Point → Point → ℕ) (received rid pid : ℕ) (location : Option Point) (x : Sample)
    (s : TrackingSession) (t : Tables)
    → find_session rid t ≡ some s
    → s.provider_id ≡ pid
    → is_active_session s.state ≡ true
    → Carried t
    → Carried (accept_tables distance received rid pid location x t)
unfolding accept_tables
accept-Carried distance received rid pid location x s t live mine active h =
    let q = qualifies distance (distance_to distance location x) x in
    let f = record_evidence q x.captured_at received in
    let new = new_position received rid pid x in
    let source : (p : CurrentPosition)
        → any (is_source p) t.sessions ≡ true
        → any (is_source p) (update_by (λ (y : TrackingSession). y.request_id) rid f t.sessions)
          ≡ true =
      λ p e.
        any-update_first (is_source p) (λ (y : TrackingSession). y.request_id == rid) f t.sessions
          (λ y mine from. record_evidence-is_source q x.captured_at received y p from) e in
    record {
      rightful =
          All-update_first (λ y. is_rightful t.requests y ≡ true)
            (λ (y : TrackingSession). y.request_id == rid) f t.sessions
            (λ y e k. record_evidence-is_rightful q x.captured_at received y t.requests k)
            h.rightful;
      sourced =
          All-upsert_position
            (λ p.
              any (is_source p) (update_by (λ (y : TrackingSession). y.request_id) rid f t.sessions)
              ≡ true)
            new t.positions
            (source new (
              any-find_first (is_source new) (λ (y : TrackingSession). y.request_id == rid)
                t.sessions s live
                (ground (
                  arith,
                  find_by-key (λ (y : TrackingSession). y.request_id) rid t.sessions s live,
                ))))
            (All-mono (λ p. any (is_source p) t.sessions ≡ true) _ t.positions source h.sourced);
    }

-- Old samples go, and sessions that stopped long ago.
session_age-active :
    (before : ℕ) (samples : List LocationSample) (p : CurrentPosition) (s : TrackingSession)
    → is_source p s ≡ true
    → session_age before samples s ≡ none
session_age-active before samples p s e = ground arith

pub prune-Carried :
    (raw derived batch : ℕ) (t : Tables) → Carried t → Carried (prune_tables raw derived batch t)
prune-Carried raw derived batch t h =
    let age = session_age derived (prune_tables raw derived batch t).samples in
    record {
      rightful =
          All-delete_oldest age (λ s. is_rightful t.requests s ≡ true) batch t.sessions h.rightful;
      sourced =
          All-mono (λ p. any (is_source p) t.sessions ≡ true)
            (λ p. any (is_source p) (delete_oldest age batch t.sessions) ≡ true) t.positions
            (λ p e.
              any-delete_oldest age (is_source p) batch t.sessions
                (λ s from. session_age-active derived _ p s from) e)
            h.sourced;
    }
