-- ===== src/Tracking/Arrival.antt =====
-- apps/api/src/provider-tracking.ts: the evidence that a provider has arrived. A distance is in
-- whole meters, rounded up, and an accuracy in millimeters: the code compares both with whole
-- meters only.
use moeen.Base.{
  ◌&&◌, ◌+◌, Bool, Option, false, if◌then◌else◌, is_some, leb, ltb, none, not, some, suc, true, ℕ,
}
use moeen.Store.{TrackingSession}

abbrev pub arrival_distance_meters : ℕ
arrival_distance_meters = 100

abbrev pub arrival_maximum_accuracy_millimeters : ℕ
arrival_maximum_accuracy_millimeters = 50000

abbrev pub arrival_required_sample_count : ℕ
arrival_required_sample_count = 3

abbrev pub arrival_required_span_milliseconds : ℕ
arrival_required_span_milliseconds = 30000

abbrev pub arrival_sample_qualifies : ℕ → ℕ → Bool
arrival_sample_qualifies distance accuracy =
    leb distance arrival_distance_meters && leb accuracy arrival_maximum_accuracy_millimeters

pub record Evidence : Type 0 where
  pub qualifying_sample_count : ℕ
  pub first_qualifying_captured_at : Option ℕ
  pub last_qualifying_captured_at : Option ℕ

-- The difference of the times is taken as `last ≥ first + span`, which needs no signed number.
abbrev pub span_reached : Option ℕ → Option ℕ → Bool
span_reached (some first) (some last) = leb (first + arrival_required_span_milliseconds) last
span_reached _ _ = false

abbrev pub evaluate_observed_arrival : Evidence → Bool
evaluate_observed_arrival e =
    not (ltb e.qualifying_sample_count arrival_required_sample_count)
    && span_reached e.first_qualifying_captured_at e.last_qualifying_captured_at

-- `first ??= value`.
abbrev pub or_else : Option ℕ → ℕ → ℕ
or_else none value = value
or_else (some old) value = old

-- The update of a session's evidence by one qualifying sample.
unfoldable pub record_qualifying : ℕ → ℕ → TrackingSession → TrackingSession
record_qualifying captured received s =
    let samples = suc s.arrival_qualifying_sample_count in
    let first : Option ℕ = some (or_else s.arrival_first_qualifying_at captured) in
    record s {
      arrival_qualifying_sample_count = samples;
      arrival_first_qualifying_at = first;
      arrival_last_qualifying_at = some captured;
      arrival_observed_at =
          if not (is_some s.arrival_observed_at)
            && evaluate_observed_arrival (record {
              qualifying_sample_count = samples;
              first_qualifying_captured_at = first;
              last_qualifying_captured_at = some captured;
            })
          then some received
          else s.arrival_observed_at;
    }

unfoldable pub record_evidence : Bool → ℕ → ℕ → TrackingSession → TrackingSession
unfolding record_qualifying
record_evidence true captured received s = record_qualifying captured received s
record_evidence false captured received s = s
