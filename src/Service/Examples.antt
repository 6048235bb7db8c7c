-- ===== src/Service/Examples.antt =====
-- A pilot provider who is verified, and a body that names two providers, one of them twice.
use moeen.Base.{
  ◌*◌, ◌+◌, ◌/◌, ◌==◌, ◌∷◌, ◌≡◌, Option, Text, [], codes, committed, count, err, false,
  if◌then◌else◌, is_empty, length, none, ok, refl, some, text_eq, true, ℕ, ℤ,
}
use moeen.Store.{
  Db, Provider, RequestStatus, VerificationStatus, find_provider, verification_precondition,
}
use moeen.Ids.Public.{after_prefix, all_digits}
use moeen.Json.{Items, Json}
use moeen.Location.Service.{ServiceLocationSource}
use moeen.Providers.Verify.{update_pilot_provider_verification, verify_row}
use moeen.Service.Accounts.{ServiceError}
use moeen.Service.Disclosure.{project_service_request_for_provider-to_service_request}
use moeen.Service.Invitations.{normalize_provider_invitation_ids}
use moeen.Service.Offers.{collect_service_payment}
use moeen.Service.Pilots.{is_pilot_id, launch_specialties, verify_pilot_provider}
use moeen.Service.Unique.{names, normalize_provider_invitation_ids-count}
use moeen.Service.Verification.{PilotStep, perform, perform-moves}
use moeen.Service.Views.{
  RequestRow, Rounding, location_of, project_service_request_for_provider, to_service_request,
}
use moeen.System.{opening}
use moeen.System.Examples.{cfg}

abbrev newcomer : Provider
newcomer = record {
  id = 7;
  specialties = 2 ∷ [];
  available = false;
  verification_status = VerificationStatus.pending;
}

abbrev registered : Db
registered = opening (newcomer ∷ []) (3 ∷ [])

-- The key of an identifier is its length here.
abbrev verified_db : Db
verified_db =
    committed registered (perform length cfg 5 (codes "PILOT-9") none PilotStep.verifies registered)

verified_ok :
    perform length cfg 5 (codes "PILOT-9") none PilotStep.verifies registered
    ≡ ok (verified_db, verify_row VerificationStatus.verified newcomer)
unfolding verify_pilot_provider update_pilot_provider_verification opening after_prefix
verified_ok = refl

perform-moves_example :
    (is_pilot_id (codes "PILOT-9") ≡ true)
    × ((p : Provider) × (find_provider 7 registered.tables ≡ some p)
        × (p.verification_status ≡ VerificationStatus.pending)
        × (find_provider 7 verified_db.tables ≡ some (verify_row VerificationStatus.verified p)))
    × ((j : ℕ)
        → (7 == j) ≡ false
        → find_provider j verified_db.tables ≡ find_provider j registered.tables)
    × (perform length cfg 6 (codes "PILOT-9") none PilotStep.verifies verified_db
        ≡ err (ServiceError.thrown verification_precondition))
perform-moves_example =
    perform-moves length cfg 5 6 (codes "PILOT-9") none none PilotStep.verifies registered
      verified_db (verify_row VerificationStatus.verified newcomer) verified_ok

-- What the staff send: the second text names the provider of the first.
abbrev body : Items
body =
    Items.item (Json.text (codes " A"))
      (Items.item (Json.text (codes "A")) (Items.item (Json.text (codes "B")) Items.no_items))

normalized : normalize_provider_invitation_ids (Json.array body) ≡ ok (codes "A" ∷ codes "B" ∷ [])
unfolding normalize_provider_invitation_ids
normalized = refl

normalize_provider_invitation_ids-count_example :
    (is_empty (codes "A" ∷ codes "B" ∷ []) ≡ false)
    × ((t : Text)
        → count (text_eq t) (codes "A" ∷ codes "B" ∷ []) ≡ (if names t body then 1 else 0))
normalize_provider_invitation_ids-count_example =
    normalize_provider_invitation_ids-count body (codes "A" ∷ codes "B" ∷ []) normalized

refused :
    normalize_provider_invitation_ids (Json.array (Items.item Json.null body))
    ≡ err ServiceError.invitations_not_ids
unfolding normalize_provider_invitation_ids
refused = refl

kept_specialties :
    launch_specialties (codes "plumbing" ∷ codes "roofing" ∷ codes "plumbing" ∷ [])
    ≡ codes "plumbing" ∷ []
unfolding launch_specialties
kept_specialties = refl

too_short :
    (db : Db)
    → collect_service_payment 5 (codes "MOE-") none db ≡ err ServiceError.invalid_service_request
unfolding collect_service_payment after_prefix all_digits
too_short db = refl

-- Two requests in one district, which a provider cannot tell apart before the assignment.
abbrev row_at : ℕ → Text → Option ℕ → RequestRow
row_at point address phone = record {
  id = 1;
  service_id = 2;
  address = address;
  location_latitude = some point;
  location_longitude = some point;
  location_source = some ServiceLocationSource.map_pin;
  location_confirmed_at = some (codes "now");
  details = some address;
  is_scheduled = false;
  status = RequestStatus.pending_dispatch;
  assigned_provider = none;
  quote = none;
  payment = none;
  customer_phone = phone;
  rating = none;
  rating_comment = none;
  created_at = 4;
}

-- Numbers that stand for hundredths of a degree.
abbrev hundredths : Rounding
hundredths = record {
  times_ten = λ n. n * 10;
  round = λ n. ℤ.pos ((n + 50) / 100);
  tenth = λ i. elim i [ ℤ.pos k ↦ k * 10 | ℤ.negsuc k ↦ 0 ];
}

abbrev here : RequestRow
here = row_at 2436 (codes "First street") (some 500)

abbrev there : RequestRow
there = row_at 2441 (codes "Second street") none

project_service_request_for_provider-to_service_request_example :
    (project_service_request_for_provider hundredths (to_service_request here)
      ≡ project_service_request_for_provider hundredths (to_service_request there))
    × ((to_service_request there).customer_phone ≡ none)
unfolding to_service_request location_of
project_service_request_for_provider-to_service_request_example =
    project_service_request_for_provider-to_service_request hundredths here there refl refl refl
