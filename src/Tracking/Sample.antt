-- ===== src/Tracking/Sample.antt =====
-- submitProviderLocationSample of apps/api/src/service-request.repository.ts. The sample is the
-- canonical one (six decimals of a degree, three of a meter). The great-circle distance is an
-- argument: whole meters, rounded up.
use moeen.Base.{
  ◌&&◌, ◌++◌, ◌==◌, ◌>>=◌, ◌>>◌, ◌∷◌, Bool, List, Option, [], err, false, find_first, guard, holds,
  if◌then◌else◌, int_eq, is_some, ltb, none, not, ok, or_fail, some, true, update_by, ℕ, ℤ,
}
use moeen.Store.{
  CurrentPosition, Db, Error, LocationSample, Point, RequestStatus, ServiceRequest, Tables,
  TrackingSession, Tx, find_request, find_session, includes, is_active_session, sample_conflict,
  sample_out_of_order, sample_predates_tracking, tracking_disabled, tracking_not_found,
}
use moeen.Outbox.Writer.{Config}
use moeen.Tracking.Arrival.{arrival_sample_qualifies, record_evidence}

pub record Sample : Type 0 where
  pub point : Point
  pub accuracy_millimeters : ℕ
  pub captured_at : ℕ

pub record SubmissionResult : Type 0 where
  pub position : CurrentPosition
  pub arrival_observed : Bool
  pub duplicate : Bool

-- `['on_the_way', 'in_progress'].includes(row.status)`.
abbrev pub is_trackable : RequestStatus → Bool
is_trackable status = includes (RequestStatus.on_the_way ∷ RequestStatus.in_progress ∷ []) status

-- The stored coordinates and accuracy are those of the sample.
abbrev pub same_values : ℤ → ℤ → ℕ → Sample → Bool
same_values latitude longitude accuracy s =
    int_eq latitude s.point.latitude
    && (int_eq longitude s.point.longitude && accuracy == s.accuracy_millimeters)

abbrev pub is_position_of : ℕ → ℕ → CurrentPosition → Bool
is_position_of rid pid p = p.request_id == rid && p.provider_id == pid

abbrev pub is_sample_at : ℕ → ℕ → ℕ → LocationSample → Bool
is_sample_at rid pid captured s =
    s.request_id == rid && (s.provider_id == pid && s.captured_at == captured)

-- What the comparison with the current position decides.
pub data Verdict : Type 0 where
  accept : Verdict
  repeat : CurrentPosition → Verdict
  refuse : Error → Verdict

-- A sample older than the current position is a repeat of a stored one, or out of order.
unfoldable pub judge_older : ℕ → ℕ → Sample → CurrentPosition → Tables → Verdict
judge_older rid pid s current t = elim (find_first (is_sample_at rid pid s.captured_at) t.samples) [
  | none ↦ refuse sample_out_of_order
  | some d ↦
      if same_values d.latitude d.longitude d.accuracy_millimeters s
      then repeat current
      else refuse sample_conflict
]

unfoldable pub judge_against : ℕ → ℕ → Sample → Tables → CurrentPosition → Verdict
unfolding judge_older
judge_against rid pid s t current =
    if current.captured_at == s.captured_at
    then if same_values current.latitude current.longitude current.accuracy_millimeters s
      then repeat current
      else refuse sample_conflict
    else if ltb s.captured_at current.captured_at
    then judge_older rid pid s current t
    else accept

unfoldable pub judge : ℕ → ℕ → Sample → Tables → Verdict
unfolding judge_against
judge rid pid s t = elim (find_first (is_position_of rid pid) t.positions) [
  | none ↦ accept
  | some current ↦ judge_against rid pid s t current
]

-- INSERT … ON CONFLICT (service_request_id) DO UPDATE.
abbrev pub upsert_position : CurrentPosition → List CurrentPosition → List CurrentPosition
upsert_position p [] = p ∷ []
upsert_position p (x ∷ xs) =
    let rest = upsert_position p xs in if x.request_id == p.request_id then p ∷ xs else x ∷ rest

abbrev pub new_position : ℕ → ℕ → ℕ → Sample → CurrentPosition
new_position received rid pid s = record {
  request_id = rid;
  provider_id = pid;
  latitude = s.point.latitude;
  longitude = s.point.longitude;
  accuracy_millimeters = s.accuracy_millimeters;
  captured_at = s.captured_at;
  received_at = received;
}

module _ (distance : Point → Point → ℕ) where
  -- distanceMeters is `null` while the request has no confirmed location.
  abbrev pub distance_to : Option Point → Sample → Option ℕ
  distance_to none s = none
  distance_to (some point) s = some (distance s.point point)

  abbrev pub qualifies : Option ℕ → Sample → Bool
  qualifies none s = false
  qualifies (some d) s = arrival_sample_qualifies d s.accuracy_millimeters

  -- The three statements of an accepted sample.
  unfoldable pub accept_tables : ℕ → ℕ → ℕ → Option Point → Sample → Tables → Tables
  unfolding record_evidence
  accept_tables received rid pid location s t =
      let d = distance_to location s in
      record t {
        samples =
            t.samples
            ++ (record {
              request_id = rid;
              provider_id = pid;
              latitude = s.point.latitude;
              longitude = s.point.longitude;
              accuracy_millimeters = s.accuracy_millimeters;
              captured_at = s.captured_at;
              received_at = received;
              distance_meters = d;
              arrival_qualifying = qualifies d s;
            }
                ∷ []);
        sessions =
            update_by (λ (x : TrackingSession). x.request_id) rid
              (record_evidence (qualifies d s) s.captured_at received) t.sessions;
        positions = upsert_position (new_position received rid pid s) t.positions;
      }

  module _ (cfg : Config) (received : ℕ) where
    -- The three ends: a repeat commits with nothing changed and reports the current position.
    unfoldable pub conclude :
        ServiceRequest → TrackingSession → ℕ → ℕ → Sample → Db → Verdict → Tx SubmissionResult
    unfolding accept_tables
    conclude request session rid pid s db (refuse e) = err e
    conclude request session rid pid s db (repeat current) = ok (
      db,
      record {
        position = current;
        arrival_observed = is_some session.arrival_observed_at;
        duplicate = true;
      },
    )
    conclude request session rid pid s db accept = ok (
      record db { tables = accept_tables received rid pid request.location s db.tables },
      record {
        position = new_position received rid pid s;
        arrival_observed =
            is_some
              (record_evidence (qualifies (distance_to request.location s) s) s.captured_at received
                session).arrival_observed_at;
        duplicate = false;
      },
    )

    unfoldable pub submit_provider_location_sample : ℕ → ℕ → Sample → Db → Tx SubmissionResult
    unfolding judge conclude
    submit_provider_location_sample rid pid s db = do
      guard cfg.tracking_enabled tracking_disabled
      request ← or_fail (find_request rid db.tables) tracking_not_found
      guard (holds request.assigned_provider_id pid && is_trackable request.status)
          tracking_not_found
      session ← or_fail (find_session rid db.tables) tracking_not_found
      guard (session.provider_id == pid && is_active_session session.state) tracking_not_found
      guard (not (ltb s.captured_at session.started_at)) sample_predates_tracking
      conclude request session rid pid s db (judge rid pid s db.tables)
