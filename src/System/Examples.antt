-- ===== src/System/Examples.antt =====
-- Concrete histories: the life of one request, from its creation to the rating, and the theorems
-- on it.
use moeen.Base.{
  ◌++◌, ◌+◌, ◌==◌, ◌∷◌, ◌≡◌, ◌≤◌, List, Option, Outcome, [], arith, count, err, holds, length, none,
  ok, refl, some, true, ℕ, ℤ,
}
use moeen.Store.{
  AuditSpec, CurrentPosition, Db, Error, LocationSample, Payment, PaymentMethod, PaymentStatus,
  Point, Provider, ProviderStatus, RequestStatus, ServiceRequest, SessionState, StopReason,
  TrackingSession, VerificationStatus, find_request,
}
use moeen.Deals.{cap_at, is_approved_for, is_deal, is_payment_of}
use moeen.Market.Decide.{Decision, decide_quote}
use moeen.Market.Propose.{submit_provider_quote}
use moeen.Outbox.Writer.{Config}
use moeen.Payments.Collect.{collect_cash_payment}
use moeen.Requests.Create.{Submission, create, new_request, rate_request}
use moeen.Requests.Transition.{update_status_for_provider}
use moeen.System.{
  Command, collects, creates, decides, opening, rates, run, step, submits, submits_sample,
  updates_status, updates_status_for_provider,
}
use moeen.System.Moves.{Changes}
use moeen.System.OneDeal.{run-opening_one_deal}
use moeen.System.Privacy.{run-count_positions, run-find_current_position}
use moeen.System.Progress.{Grows, run-Grows, run-final}
use moeen.System.Refinement.{step-Change}
use moeen.System.Tracked.{run-opening-Carried}
use moeen.Tracking.Carried.{Carried}
use moeen.Tracking.Operations.{Reader, find_current_provider_position, may_read}
use moeen.Tracking.Sample.{Sample, is_trackable, new_position, submit_provider_location_sample}

-- Every point is 50 meters from every other.
abbrev pub near : Point → Point → ℕ
near p q = 50

abbrev pub cfg : Config
cfg = record { notifications_enabled = true; tracking_enabled = true }

abbrev pub plumber : ℕ → Provider
plumber id = record {
  id = id;
  specialties = 3 ∷ [];
  available = true;
  verification_status = VerificationStatus.verified;
}

abbrev pub providers : List Provider
providers = plumber 7 ∷ plumber 8 ∷ []

abbrev pub staff : List ℕ
staff = 1 ∷ []

abbrev pub home : Point
home = record { latitude = ℤ.pos 24713600; longitude = ℤ.pos 46675300 }

abbrev pub sample_at : ℕ → Sample
sample_at at = record { point = home; accuracy_millimeters = 20000; captured_at = at }

abbrev pub spec : Option AuditSpec
spec = some (record { staff_id = 1; action = "act"; subject_id = 1 })

abbrev pub submission : Submission
submission = record { client_submission_id = 9; submission_fingerprint = 77 }

-- The customer 5 asks for the service 3, both plumbers make an offer, and the first one wins.
abbrev pub asked : List (ℕ × Command)
asked = (1000, creates 3 5 (some home) (some submission)) ∷ []

abbrev pub offered : List (ℕ × Command)
offered =
    (1000, creates 3 5 (some home) (some submission))
    ∷ (2000, submits 1 7 15000 "leak")
    ∷ (3000, submits 1 8 12000 "leak")
    ∷ []

abbrev pub won : List (ℕ × Command)
won = (4000, decides 1 5 1 Decision.approve) ∷ []

abbrev pub driving : List (ℕ × Command)
driving =
    (5000, updates_status_for_provider 1 7 ProviderStatus.on_the_way)
    ∷ (6000, submits_sample 1 7 (sample_at 5500))
    ∷ (20000, submits_sample 1 7 (sample_at 19500))
    ∷ (40000, submits_sample 1 7 (sample_at 39500))
    ∷ []

abbrev pub ending : List (ℕ × Command)
ending =
    (50000, updates_status_for_provider 1 7 ProviderStatus.in_progress)
    ∷ (90000, updates_status_for_provider 1 7 ProviderStatus.completed)
    ∷ (91000, collects 1 spec)
    ∷ (92000, rates 1 5 5 (some "good"))
    ∷ []

abbrev pub live : List (ℕ × Command)
live = offered ++ (won ++ driving)

abbrev pub whole : List (ℕ × Command)
whole = live ++ ending

abbrev pub new_db : Db
new_db = opening providers staff

abbrev pub after : List (ℕ × Command) → Db
after cs = run near cfg cs new_db

-- The request of the story at a status, with its payment, session and samples, written out.
abbrev pub request_at : RequestStatus → ServiceRequest
request_at status = record {
  id = 1;
  service_id = 3;
  customer_id = some 5;
  client_submission_id = some 9;
  submission_fingerprint = some 77;
  location = some home;
  status = status;
  assigned_provider_id = some 7;
  rating = none;
  rating_comment = none;
}

abbrev pub due : Payment
due = record {
  id = 1;
  request_id = 1;
  quote_id = 1;
  amount_halalas = 15000;
  method = PaymentMethod.cash_on_completion;
  status = PaymentStatus.cash_due;
  collected_at = none;
  refunded_at = none;
}

abbrev pub stored_at : ℕ → LocationSample
stored_at at = record {
  request_id = 1;
  provider_id = 7;
  latitude = home.latitude;
  longitude = home.longitude;
  accuracy_millimeters = 20000;
  captured_at = at;
  received_at = at + 500;
  distance_meters = some 50;
  arrival_qualifying = true;
}

abbrev pub session_from : SessionState → Option ℕ → Option StopReason → TrackingSession
session_from state stopped reason = record {
  request_id = 1;
  provider_id = 7;
  state = state;
  started_at = 5000;
  stopped_at = stopped;
  stop_reason = reason;
  arrival_qualifying_sample_count = 0;
  arrival_first_qualifying_at = none;
  arrival_last_qualifying_at = none;
  arrival_observed_at = none;
}

abbrev pub db_with : ServiceRequest → Payment → TrackingSession → List LocationSample → Db
db_with request payment session samples = record {
  tables = record {
    providers = providers;
    requests = request ∷ [];
    quotes = [];
    opportunities = [];
    payments = payment ∷ [];
    sessions = session ∷ [];
    positions = [];
    samples = samples;
    next_request_id = 2;
    next_quote_id = 2;
    next_payment_id = 2;
  };
  journal = record {
    events = [];
    outbox = [];
    audit = [];
    staff_users = staff;
    next_outbox_id = 1;
  };
}

abbrev pub finished : Db
finished =
    db_with (request_at RequestStatus.completed) due
      (session_from SessionState.stopped (some 60) (some StopReason.completed))
      (stored_at 5500 ∷ stored_at 39500 ∷ [])

abbrev pub sampling : Db
sampling =
    db_with (request_at RequestStatus.on_the_way) due (session_from SessionState.active none none)
      []

-- The request and the position of a state, with a stand-in where there is none.
abbrev pub request_in : Db → ServiceRequest
request_in db = elim (find_request 1 db.tables) [
  | some r ↦ r
  | none ↦ new_request 3 5 none none db.tables
]

-- What a transaction returned, with a stand-in where it threw.
abbrev pub returned {ℓ} : {A : Type ℓ} → A → Outcome Error (Db × A) → A
returned a (ok (db, b)) = b
returned a (err e) = a

-- The story ends with one rated request, one payment, and no position.
story :
    ((request_in (after whole)).rating ≡ some 5)
    × ((request_in (after whole)).assigned_provider_id ≡ some 7)
    × (length (after whole).payments ≡ 1)
    × (length (after live).positions ≡ 1)
    × (length (after whole).positions ≡ 0)
unfolding run step opening create submit_provider_quote decide_quote update_status_for_provider
    submit_provider_location_sample collect_cash_payment rate_request
story = (refl, refl, refl, refl, refl)

run-opening_one_deal_example :
    (count (is_deal 1) (after whole).quotes ≤ cap_at 1 (after whole).requests)
    × (count (is_payment_of 1) (after whole).payments
        ≤ count (is_approved_for 1) (after whole).quotes)
    × (count (is_payment_of 1) (after whole).payments ≤ 1)
run-opening_one_deal_example = run-opening_one_deal near cfg providers staff whole 1

step-Change_example :
    Changes
      (after offered).tables
      (step near cfg (4000, decides 1 5 1 Decision.approve) (after offered)).tables
step-Change_example = step-Change near cfg (4000, decides 1 5 1 Decision.approve) (after offered)

run-Grows_example :
    (r' : ServiceRequest) × (find_request 1 (run near cfg (won ++ driving) (after offered)).tables
      ≡ some r')
    × Grows (request_in (after offered)) r'
unfolding run step opening create submit_provider_quote
run-Grows_example =
    run-Grows near cfg (won ++ driving) (after offered) 1 (request_in (after offered)) refl

run-final_example :
    (r' : ServiceRequest) × (find_request 1
        (run near cfg
          ((93000, updates_status 1 RequestStatus.cancelled none) ∷ [])
          (after whole)).tables
      ≡ some r')
    × (r'.status ≡ (request_in (after whole)).status)
unfolding run step opening create submit_provider_quote decide_quote update_status_for_provider
    submit_provider_location_sample collect_cash_payment rate_request
run-final_example =
    run-final near cfg ((93000, updates_status 1 RequestStatus.cancelled none) ∷ []) (after whole) 1
      (request_in (after whole)) refl refl

run-opening-Carried_example : Carried (after live).tables
run-opening-Carried_example = run-opening-Carried near cfg providers staff live

abbrev shown_at : ℕ → CurrentPosition
shown_at at = new_position (at + 500) 1 7 (sample_at at)

run-find_current_position_example :
    (r : ServiceRequest) × (find_request 1 (after live).tables ≡ some r)
    × ((shown_at 39500).request_id ≡ 1)
    × (is_trackable r.status ≡ true)
    × (holds r.assigned_provider_id 7 ≡ true)
    × (may_read (Reader.customer_reader 5) r ≡ true)
unfolding run step opening create submit_provider_quote decide_quote update_status_for_provider
    submit_provider_location_sample find_current_provider_position
run-find_current_position_example =
    run-find_current_position near cfg providers staff live (Reader.customer_reader 5) 1
      (shown_at 39500) refl

run-count_positions_example :
    count (λ (p : CurrentPosition). p.request_id == 1) (after whole).positions ≡ 0
unfolding run step opening create submit_provider_quote decide_quote update_status_for_provider
    submit_provider_location_sample collect_cash_payment rate_request
run-count_positions_example =
    run-count_positions near cfg providers staff whole 1 (λ r found. ground arith)
