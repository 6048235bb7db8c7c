-- ===== src/Tracking/Carried.antt =====
-- The invariant of live tracking, which relates sessions, positions and requests, and the changes
-- of the requests against it.
use moeen.Base.{
  ◌&&◌, ◌++◌, ◌==◌, ◌||◌, ◌≡◌, All, All-delete_where-to, All-mono, All-update_where-to, Bool,
  Bool-cases, List, Option, Option-cases, any, any-update_where, arith, false, find_by,
  find_by-update_by, find_first-append, holds, inl, inr, none, not, refl, some, subst, true,
  update_by, ℕ,
}
use moeen.Store.{
  CurrentPosition, ServiceRequest, StopReason, Tables, TrackingSession, is_active_session,
}
use moeen.Tracking.Sample.{is_trackable}
use moeen.Tracking.Session.{is_stoppable, stop_provider_tracking, stop_session}

abbrev pub request_key : ServiceRequest → ℕ
request_key r = r.id

-- The request is on the way or in progress, with this provider.
abbrev pub is_carried_by : ℕ → Option ServiceRequest → Bool
is_carried_by pid none = false
is_carried_by pid (some r) = is_trackable r.status && holds r.assigned_provider_id pid

abbrev pub is_rightful : List ServiceRequest → TrackingSession → Bool
is_rightful requests s =
    not (is_active_session s.state)
    || is_carried_by s.provider_id (find_by request_key s.request_id requests)

-- The session that a position comes from.
abbrev pub is_source : CurrentPosition → TrackingSession → Bool
is_source p s =
    s.request_id == p.request_id && (s.provider_id == p.provider_id && is_active_session s.state)

pub record IsCarried (requests : List ServiceRequest) (sessions : List TrackingSession)
    (positions : List CurrentPosition) : Type 0 where
  pub rightful : All (λ s. is_rightful requests s ≡ true) sessions
  pub sourced : All (λ p. any (is_source p) sessions ≡ true) positions

abbrev pub Carried : Tables → Type 0
Carried t = IsCarried t.requests t.sessions t.positions

-- Requests that change where nothing is tracked.
is_rightful-append :
    (rs ys : List ServiceRequest) (s : TrackingSession)
    → is_rightful rs s ≡ true
    → is_rightful (rs ++ ys) s ≡ true
is_rightful-append rs ys s h = elim (Option-cases (find_by request_key s.request_id rs)) [
  | inl e ↦ ground arith
  | inr (r, e) ↦ ground (arith, find_first-append (λ x. x.id == s.request_id) rs ys r e)
]

pub append-Carried :
    (rs ys : List ServiceRequest) (ss : List TrackingSession) (ps : List CurrentPosition)
    → IsCarried rs ss ps
    → IsCarried (rs ++ ys) ss ps
append-Carried rs ys ss ps h = record {
  rightful =
      All-mono (λ s. is_rightful rs s ≡ true) (λ s. is_rightful (rs ++ ys) s ≡ true) ss
        (is_rightful-append rs ys) h.rightful;
  sourced = h.sourced;
}

module _ (rid : ℕ) (f : ServiceRequest → ServiceRequest) (rs : List ServiceRequest)
    (keeps : (x : ServiceRequest) → (f x).id ≡ x.id) where
  abbrev after : List ServiceRequest
  after = update_by request_key rid f rs

  is_rightful-other :
      (s : TrackingSession)
      → (s.request_id == rid) ≡ false
      → is_rightful rs s ≡ true
      → is_rightful after s ≡ true
  is_rightful-other s other h =
      ground (arith, find_by-update_by request_key rid s.request_id f rs keeps)

  is_rightful-same :
      (r : ServiceRequest)
      → find_by request_key rid rs ≡ some r
      → (is_trackable r.status ≡ true
          → (is_trackable (f r).status ≡ true)
            × ((f r).assigned_provider_id ≡ r.assigned_provider_id))
      → (s : TrackingSession) → (s.request_id == rid) ≡ true
      → is_rightful rs s ≡ true
      → is_rightful after s ≡ true
  is_rightful-same r found tracked s same h = elim (Bool-cases (is_trackable r.status)) [
    | inl on ↦
        let (still, owner) = tracked on in
        ground (arith, find_by-update_by request_key rid s.request_id f rs keeps)
    | inr off ↦ ground (arith, find_by-update_by request_key rid s.request_id f rs keeps)
  ]

  -- A row that stays tracked, if it was, for the same provider.
  pub update-Carried :
      (r : ServiceRequest) (ss : List TrackingSession) (ps : List CurrentPosition)
      → find_by request_key rid rs ≡ some r
      → (is_trackable r.status ≡ true
          → (is_trackable (f r).status ≡ true)
            × ((f r).assigned_provider_id ≡ r.assigned_provider_id))
      → IsCarried rs ss ps
      → IsCarried after ss ps
  update-Carried r ss ps found tracked h = record {
    rightful =
        All-mono (λ s. is_rightful rs s ≡ true) (λ s. is_rightful after s ≡ true) ss
          (λ s e. elim (Bool-cases (s.request_id == rid)) [
            | inl same ↦ is_rightful-same r found tracked s same e
            | inr other ↦ is_rightful-other s other e
          ])
          h.rightful;
    sourced = h.sourced;
  }

  -- The end of a request with its tracking: stopProviderTracking, and whatever becomes of the row.
  pub stop-Carried :
      (now : ℕ) (reason : StopReason) (t : Tables)
      → t.requests ≡ rs
      → Carried t
      → IsCarried after
          (stop_provider_tracking now rid reason t).sessions
          (stop_provider_tracking now rid reason t).positions
  unfolding stop_provider_tracking
  stop-Carried now reason t same h = record {
    rightful =
        All-update_where-to (λ s. is_rightful t.requests s ≡ true) (λ s. is_rightful after s ≡ true)
          (λ (s : TrackingSession). s.request_id == rid && is_stoppable reason s)
          (stop_session now reason) t.sessions (λ s e k. refl)
          (λ s e k. elim (Bool-cases (s.request_id == rid)) [
            | inl mine ↦ ground arith
            | inr other ↦ is_rightful-other s other (subst (λ x. is_rightful x s ≡ true) same k)
          ])
          h.rightful;
    sourced =
        All-delete_where-to (λ p. any (is_source p) t.sessions ≡ true)
          (λ p. any (is_source p) (stop_provider_tracking now rid reason t).sessions ≡ true)
          (λ (p : CurrentPosition). p.request_id == rid) t.positions
          (λ p e k.
            any-update_where (is_source p)
              (λ (s : TrackingSession). s.request_id == rid && is_stoppable reason s)
              (stop_session now reason) t.sessions (λ s stopped source. absurd (ground arith)) k)
          h.sourced;
  }
