-- ===== src/Tracking/Examples.antt =====
-- The samples of a session, and the theorem on its arrival.
use moeen.Base.{◌∷◌, ◌≡◌, Bool, List, [], false, is_some, none, refl, true, ℕ}
use moeen.Store.{SessionState, TrackingSession}
use moeen.Tracking.Evidence.{
  Sighting, is_arrival, qualifying_times, record_all, record_all-is_arrival,
}

abbrev unseen : TrackingSession
unseen = record {
  request_id = 1;
  provider_id = 7;
  state = SessionState.active;
  started_at = 5000;
  stopped_at = none;
  stop_reason = none;
  arrival_qualifying_sample_count = 0;
  arrival_first_qualifying_at = none;
  arrival_last_qualifying_at = none;
  arrival_observed_at = none;
}

abbrev sighting : Bool → ℕ → Sighting
sighting qualifying at = record { qualifying = qualifying; captured_at = at; received_at = at }

abbrev approach : List Sighting
approach =
    sighting false 6000 ∷ sighting true 10000 ∷ sighting true 20000 ∷ sighting true 41000 ∷ []

arrived : is_arrival (qualifying_times approach) ≡ true
arrived = refl

record_all-is_arrival_example :
    is_some (record_all approach unseen).arrival_observed_at
    ≡ is_arrival (qualifying_times approach)
record_all-is_arrival_example = record_all-is_arrival approach unseen refl refl refl
