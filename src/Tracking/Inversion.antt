-- ===== src/Tracking/Inversion.antt =====
-- What a tracking transaction found when it committed, and the tables it left.
use moeen.Base.{
  ◌&&◌, ◌==◌, ◌≡◌, ◌≤◌, ◌⊎◌, arith, false, guard-eq-ok, holds, inl, inr, is_some, ltb, not, ok,
  or_fail-eq-ok, refl, some, true, ℕ,
}
use moeen.Store.{
  Db, Point, ServiceRequest, StopReason, TrackingSession, find_request, find_session,
  invalid_batch_size, is_active_session, request_not_found, sample_predates_tracking,
  tracking_disabled, tracking_not_found,
}
use moeen.Outbox.Writer.{Config}
use moeen.Tracking.Arrival.{record_evidence}
use moeen.Tracking.Operations.{stop_provider_tracking_for_operations}
use moeen.Tracking.Retention.{prune_provider_tracking_data, prune_tables}
use moeen.Tracking.Sample.{
  Sample, SubmissionResult, Verdict, accept, accept_tables, conclude, distance_to, is_trackable,
  judge, new_position, qualifies, refuse, repeat, submit_provider_location_sample,
}
use moeen.Tracking.Session.{stop_provider_tracking}

module _ (distance : Point → Point → ℕ) (cfg : Config) (received : ℕ) (db db' : Db) where
  -- A committed submission is a repeat, which changes nothing, or an accepted sample.
  pub submit_provider_location_sample_inv :
      (rid pid : ℕ) (s : Sample) (out : SubmissionResult)
      → submit_provider_location_sample distance cfg received rid pid s db ≡ ok (db', out)
      → (r : ServiceRequest) × (find_request rid db.tables ≡ some r)
        × (holds r.assigned_provider_id pid ≡ true)
        × (is_trackable r.status ≡ true)
        × (x : TrackingSession) × (find_session rid db.tables ≡ some x)
        × (x.provider_id ≡ pid)
        × (is_active_session x.state ≡ true)
        × (x.started_at ≤ s.captured_at)
        × (conclude distance cfg received r x rid pid s db (judge rid pid s db.tables)
            ≡ ok (db', out))
  unfolding submit_provider_location_sample
  submit_provider_location_sample_inv rid pid s out e =
      let (on, e1) = guard-eq-ok cfg.tracking_enabled tracking_disabled _ e in
      let (r, found, e2) = or_fail-eq-ok (find_request rid db.tables) tracking_not_found _ e1 in
      let (own, e3) =
        guard-eq-ok (holds r.assigned_provider_id pid && is_trackable r.status) tracking_not_found _
          e2 in
      let (x, live, e4) = or_fail-eq-ok (find_session rid db.tables) tracking_not_found _ e3 in
      let (active, e5) =
        guard-eq-ok (x.provider_id == pid && is_active_session x.state) tracking_not_found _ e4 in
      let (late, e6) =
        guard-eq-ok (not (ltb s.captured_at x.started_at)) sample_predates_tracking _ e5 in
      (r, found, ground arith, ground arith, x, live, ground arith, ground arith, ground arith, e6)

  pub conclude_inv :
      (r : ServiceRequest) (x : TrackingSession) (rid pid : ℕ) (s : Sample) (v : Verdict)
      (out : SubmissionResult)
      → conclude distance cfg received r x rid pid s db v ≡ ok (db', out)
      → ((v ≡ accept)
          × (db'.tables ≡ accept_tables distance received rid pid r.location s db.tables)
          × (out.duplicate ≡ false)
          × (out.position ≡ new_position received rid pid s)
          × (out.arrival_observed
              ≡ is_some
                  (record_evidence
                    (qualifies distance (distance_to distance r.location s) s)
                    s.captured_at
                    received
                    x).arrival_observed_at)
          × (db'.journal ≡ db.journal))
        ⊎ ((out.duplicate ≡ true) × (db' ≡ db))
  unfolding conclude
  conclude_inv r x rid pid s (refuse error) out e = cc
  conclude_inv r x rid pid s (repeat current) out e = inr (ground arith, ground arith)
  conclude_inv r x rid pid s accept out e =
      inl (refl, ground arith, ground arith, ground arith, ground arith, ground arith)

module _ (cfg : Config) (now : ℕ) (db db' : Db) where
  pub stop_provider_tracking_for_operations_inv :
      (rid : ℕ) (u : Unit {0})
      → stop_provider_tracking_for_operations cfg now rid db ≡ ok (db', u)
      → (r : ServiceRequest) × (find_request rid db.tables ≡ some r)
        × (db'.tables ≡ stop_provider_tracking now rid StopReason.operations_emergency db.tables)
  unfolding stop_provider_tracking_for_operations
  stop_provider_tracking_for_operations_inv rid u e =
      let (on, e1) = guard-eq-ok cfg.tracking_enabled tracking_disabled _ e in
      let (r, found, e2) = or_fail-eq-ok (find_request rid db.tables) request_not_found _ e1 in
      (r, found, ground arith)

pub prune_provider_tracking_data_inv :
    (db db' : Db) (raw derived batch : ℕ) (deleted : ℕ × ℕ)
    → prune_provider_tracking_data raw derived batch db ≡ ok (db', deleted)
    → (batch ≤ 10000) × (db'.tables ≡ prune_tables raw derived batch db.tables)
unfolding prune_provider_tracking_data
prune_provider_tracking_data_inv db db' raw derived batch deleted e =
    let (fit, e1) =
      guard-eq-ok (not (ltb batch 1) && not (ltb 10000 batch)) invalid_batch_size _ e in
    (ground arith, ground arith)
