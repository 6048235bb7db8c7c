-- ===== src/Service/Views.antt =====
-- What a provider reads of a request: toServiceRequest of
-- apps/api/src/service-request.repository.ts, then projectServiceRequestForProvider and
-- toProviderOpportunityDto of apps/api/src/app.service.ts. The names of providers, the summary of
-- opportunities and the images of a request are left out.
use Prim.Native.String.{String}
use moeen.Base.{◌&&◌, Bool, Option, Text, false, if◌then◌else◌, none, some, true, ℕ, ℤ}
use moeen.Store.{OpportunityStatus, Payment, Quote, RequestStatus, is_open_opportunity}
use moeen.Location.Service.{ServiceLocation, ServiceLocationSource, coordinate}

-- A row of the query; the phone is selected for the assigned provider only.
pub record RequestRow : Type 0 where
  pub id : ℕ
  pub service_id : ℕ
  pub address : Text
  pub location_latitude : Option ℕ
  pub location_longitude : Option ℕ
  pub location_source : Option ServiceLocationSource
  pub location_confirmed_at : Option Text
  pub details : Option Text
  pub is_scheduled : Bool
  pub status : RequestStatus
  pub assigned_provider : Option ℕ
  pub quote : Option Quote
  pub payment : Option Payment
  pub customer_phone : Option ℕ
  pub rating : Option ℕ
  pub rating_comment : Option String
  pub created_at : ℕ

pub record RequestView : Type 0 where
  pub id : ℕ
  pub service_id : ℕ
  pub address : Text
  pub location : Option ServiceLocation
  pub details : Option Text
  pub is_scheduled : Bool
  pub status : RequestStatus
  pub assigned_provider : Option ℕ
  pub quote : Option Quote
  pub payment : Option Payment
  pub customer_phone : Option ℕ
  pub rating : Option ℕ
  pub rating_comment : Option String
  pub created_at : ℕ

-- ACTIVE_PROVIDER_LOCATION_STATUSES.
abbrev pub has_exact_location : RequestStatus → Bool
has_exact_location RequestStatus.assigned = true
has_exact_location RequestStatus.on_the_way = true
has_exact_location RequestStatus.in_progress = true
has_exact_location _ = false

abbrev pub may_disclose_customer_phone_to_provider : RequestStatus → Bool
may_disclose_customer_phone_to_provider RequestStatus.assigned = true
may_disclose_customer_phone_to_provider RequestStatus.on_the_way = true
may_disclose_customer_phone_to_provider RequestStatus.in_progress = true
may_disclose_customer_phone_to_provider _ = false

-- The location is there when its four columns are.
unfoldable pub location_of :
    Text → Option ℕ → Option ℕ → Option ServiceLocationSource → Option Text → Option ServiceLocation
location_of address (some latitude) (some longitude) (some source) (some confirmed_at) =
    some (record {
      latitude = latitude;
      longitude = longitude;
      display_address = address;
      source = source;
      confirmed_at = confirmed_at;
    })
location_of address _ _ _ _ = none

unfoldable pub to_service_request : RequestRow → RequestView
unfolding location_of
to_service_request row = record {
  id = row.id;
  service_id = row.service_id;
  address = row.address;
  location =
      location_of row.address row.location_latitude row.location_longitude row.location_source
        row.location_confirmed_at;
  details = row.details;
  is_scheduled = row.is_scheduled;
  status = row.status;
  assigned_provider = row.assigned_provider;
  quote = row.quote;
  payment = row.payment;
  customer_phone =
      if may_disclose_customer_phone_to_provider row.status then row.customer_phone else none;
  rating = row.rating;
  rating_comment = row.rating_comment;
  created_at = row.created_at;
}

pub record RequestSummary : Type 0 where
  pub id : ℕ
  pub service_id : ℕ
  pub is_scheduled : Bool
  pub status : RequestStatus
  pub assigned_provider : Option ℕ
  pub quote : Option Quote
  pub payment : Option Payment
  pub rating : Option ℕ
  pub rating_comment : Option String
  pub created_at : ℕ

abbrev pub to_summary : RequestView → RequestSummary
to_summary r = record {
  id = r.id;
  service_id = r.service_id;
  is_scheduled = r.is_scheduled;
  status = r.status;
  assigned_provider = r.assigned_provider;
  quote = r.quote;
  payment = r.payment;
  rating = r.rating;
  rating_comment = r.rating_comment;
  created_at = r.created_at;
}

-- The whole request, or the summary with the approximate location.
pub data ProviderView : Type 0 where
  exact : RequestView → ProviderView
  redacted : RequestSummary → Option (ℕ × ℕ) → ProviderView

pub record OpportunityAccess : Type 0 where
  pub request_id : ℕ
  pub service_id : ℕ
  pub is_scheduled : Bool
  pub opportunity_status : OpportunityStatus
  pub my_quote : Option Quote
  pub details : Option Text
  pub request_status : Option RequestStatus
  pub location : Option ServiceLocation

pub record OpportunityView : Type 0 where
  pub request_id : ℕ
  pub service_id : ℕ
  pub is_scheduled : Bool
  pub opportunity_status : OpportunityStatus
  pub my_quote : Option Quote
  pub details : Option Text
  pub approximate_location : Option (ℕ × ℕ)

abbrev pub awaits_dispatch : Option RequestStatus → Bool
awaits_dispatch (some RequestStatus.pending_dispatch) = true
awaits_dispatch _ = false

unfoldable pub is_eligible_pre_quote_opportunity : OpportunityAccess → Bool
is_eligible_pre_quote_opportunity o =
    is_open_opportunity o.opportunity_status && awaits_dispatch o.request_status

-- What the rounding uses of numbers by their patterns: `coordinate * 10`, Math.round on a finite
-- number, and the division of a whole number by ten.
pub record Rounding : Type 0 where
  pub times_ten : ℕ → ℕ
  pub round : ℕ → ℤ
  pub tenth : ℤ → ℕ

-- `Math.round(coordinate * 10) / 10`.
abbrev pub coarse : Rounding → ℕ → ℕ
coarse m coordinate = m.tenth (m.round (m.times_ten coordinate))

module _ (m : Rounding) where
  -- deriveProviderApproximateLocation where there is a location.
  unfoldable pub approximate_location : Option ServiceLocation → Option (ℕ × ℕ)
  approximate_location none = none
  approximate_location (some l) = some (coarse m l.latitude, coarse m l.longitude)

  unfoldable pub project_service_request_for_provider : RequestView → ProviderView
  unfolding approximate_location
  project_service_request_for_provider r =
      if has_exact_location r.status
      then exact r
      else redacted (to_summary r)
          (if awaits_dispatch (some r.status) then approximate_location r.location else none)

  unfoldable pub to_provider_opportunity_dto : OpportunityAccess → OpportunityView
  unfolding approximate_location is_eligible_pre_quote_opportunity
  to_provider_opportunity_dto o =
      let eligible = is_eligible_pre_quote_opportunity o in
      record {
        request_id = o.request_id;
        service_id = o.service_id;
        is_scheduled = o.is_scheduled;
        opportunity_status = o.opportunity_status;
        my_quote = o.my_quote;
        details = if eligible then o.details else none;
        approximate_location = if eligible then approximate_location o.location else none;
      }
