-- ===== src/Service/Disclosure.antt =====
-- What a provider can learn from the reads.
use moeen.Base.{◌∙◌, ◌≡◌, Option, ap, arith, false, none, refl, some, subst, sym, ℕ, ℤ}
use moeen.Store.{RequestStatus}
use moeen.Location.Service.{ServiceLocation}
use moeen.Service.Views.{
  OpportunityAccess, RequestRow, RequestSummary, Rounding, approximate_location, has_exact_location,
  is_eligible_pre_quote_opportunity, may_disclose_customer_phone_to_provider,
  project_service_request_for_provider, to_provider_opportunity_dto, to_service_request, to_summary,
}
use mathlib.Core.Option

-- The square of a tenth of a degree that a place lies in.
abbrev pub square_of : Rounding → ServiceLocation → ℤ × ℤ
square_of m l = (m.round (m.times_ten l.latitude), m.round (m.times_ten l.longitude))

abbrev pub center : Rounding → ℤ × ℤ → ℕ × ℕ
center m (i, j) = (m.tenth i, m.tenth j)

approximate_location-center :
    (m : Rounding) (place : Option ServiceLocation)
    → approximate_location m place ≡ Option.map (center m) (Option.map (square_of m) place)
unfolding approximate_location
approximate_location-center m none = refl
approximate_location-center m (some l) = refl

phone-has_exact_location :
    (status : RequestStatus)
    → may_disclose_customer_phone_to_provider status ≡ has_exact_location status
phone-has_exact_location status = ground arith

-- A request that is not assigned and active shows a provider nothing but the summary and the square
-- of a tenth of a degree that it lies in: two rows that agree on these give the same view, whatever
-- their addresses, details, phones and exact points are; and the phone does not even reach the
-- mapped request.
pub project_service_request_for_provider-to_service_request :
    (m : Rounding) (a b : RequestRow)
    → has_exact_location a.status ≡ false
    → to_summary (to_service_request a) ≡ to_summary (to_service_request b)
    → Option.map (square_of m) (to_service_request a).location
      ≡ Option.map (square_of m) (to_service_request b).location
    → (project_service_request_for_provider m (to_service_request a)
        ≡ project_service_request_for_provider m (to_service_request b))
      × ((to_service_request b).customer_phone ≡ none)
unfolding project_service_request_for_provider to_service_request
project_service_request_for_provider-to_service_request m a b inactive same near =
    let status : a.status ≡ b.status = ap (λ (s : RequestSummary). s.status) same in
    let other : has_exact_location b.status ≡ false =
      subst (λ s. has_exact_location s ≡ false) status inactive in
    let close : approximate_location m (to_service_request a).location
        ≡ approximate_location m (to_service_request b).location =
      approximate_location-center m (to_service_request a).location
      ∙ (ap (Option.map (center m)) near
          ∙ sym (approximate_location-center m (to_service_request b).location)) in
    (
      rw (inactive, other, same, close, status) refl,
      rw (phone-has_exact_location b.status, other) refl,
    )

-- An opportunity shows no more of the place than the coarse point, so another place with that point
-- looks the same.
pub to_provider_opportunity_dto-approximate_location :
    (m : Rounding) (o : OpportunityAccess) (place : Option ServiceLocation)
    → approximate_location m o.location ≡ approximate_location m place
    → to_provider_opportunity_dto m (record o { location = place })
      ≡ to_provider_opportunity_dto m o
unfolding to_provider_opportunity_dto is_eligible_pre_quote_opportunity
to_provider_opportunity_dto-approximate_location m o place near = rw near refl

-- Once the provider may not quote any more, an opportunity shows neither details nor a place.
pub to_provider_opportunity_dto-over :
    (m : Rounding) (o : OpportunityAccess)
    → is_eligible_pre_quote_opportunity o ≡ false
    → to_provider_opportunity_dto m o
      ≡ to_provider_opportunity_dto m (record o { location = none; details = none })
unfolding to_provider_opportunity_dto is_eligible_pre_quote_opportunity
to_provider_opportunity_dto-over m o over = rw over refl
