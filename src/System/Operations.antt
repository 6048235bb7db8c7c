-- ===== src/System/Operations.antt =====
-- Single transactions on the histories of System/Examples, and the theorems on them.
use moeen.Base.{
  ◌<◌, ◌==◌, ◌≡◌, ◌≤◌, Outcome, any, committed, count, false, find_first, holds, length, none, ok,
  refl, some, suc, true,
}
use moeen.Store.{
  CurrentPosition, Db, Error, Payment, Provider, Quote, QuoteStatus, RequestStatus, ServiceRequest,
  TrackingSession, find_provider, find_quote, find_request, find_session, is_active_session,
  pending_dispatch,
}
use moeen.Market.Decide.{Decision, decide_quote, decide_row}
use moeen.Market.Propose.{submit_provider_quote}
use moeen.Market.Winning.{decide_quote-wins, is_loser}
use moeen.Requests.Assign.{assign_provider, assign_row}
use moeen.Requests.Closing.{assign_provider-closes}
use moeen.Requests.Create.{create}
use moeen.Requests.Opportunities.{is_eligible, is_open_for, is_open_provider_quote}
use moeen.System.{opening, run, step}
use moeen.System.Examples.{after, cfg, near, offered, request_in, sample_at, sampling, spec}
use moeen.Tracking.Order.{submit-order, submit-submit}
use moeen.Tracking.Sample.{
  SubmissionResult, is_position_of, new_position, submit_provider_location_sample,
}

abbrev sampled : Outcome Error (Db × SubmissionResult)
sampled = submit_provider_location_sample near cfg 6000 1 7 (sample_at 5500) sampling

abbrev first_result : SubmissionResult
first_result = record {
  position = new_position 6000 1 7 (sample_at 5500);
  arrival_observed = false;
  duplicate = false;
}

submit-submit_example :
    submit_provider_location_sample near cfg 7000 1 7 (sample_at 5500) (committed sampling sampled)
    ≡ ok (committed sampling sampled, record first_result { duplicate = true })
unfolding submit_provider_location_sample
submit-submit_example =
    submit-submit near cfg 6000 1 7 (sample_at 5500) sampling (committed sampling sampled)
      first_result refl refl 7000

submit-order_example :
    (x : TrackingSession) × (find_session 1 sampling.tables ≡ some x)
    × (is_active_session x.state ≡ true)
    × (x.provider_id ≡ 7)
    × (x.started_at ≤ 5500)
    × ((p : CurrentPosition)
        → find_first (is_position_of 1 7) sampling.positions ≡ some p
        → p.captured_at < 5500)
    × (find_first (is_position_of 1 7) (committed sampling sampled).positions
        ≡ some (new_position 6000 1 7 (sample_at 5500)))
    × (length (committed sampling sampled).samples ≡ suc (length sampling.samples))
    × ((committed sampling sampled).journal ≡ sampling.journal)
unfolding submit_provider_location_sample
submit-order_example =
    submit-order near cfg 6000 1 7 (sample_at 5500) sampling (committed sampling sampled)
      first_result refl refl

abbrev assigning : Outcome Error (Db × ServiceRequest)
assigning = assign_provider cfg 4000 1 8 spec (after offered)

abbrev assigned_db : Db
assigned_db = committed (after offered) assigning

assign_provider-closes_example :
    (r : ServiceRequest) × (find_request 1 (after offered).tables ≡ some r)
    × (r.status ≡ pending_dispatch)
    × (p : Provider) × (find_provider 8 (after offered).tables ≡ some p)
    × (is_eligible r.service_id p ≡ true)
    × (find_request 1 assigned_db.tables ≡ some (assign_row 8 r))
    × (count (is_open_for 1) assigned_db.opportunities ≡ 0)
    × (count (is_open_provider_quote 1) assigned_db.quotes ≡ 0)
unfolding run step opening create submit_provider_quote assign_provider
assign_provider-closes_example =
    assign_provider-closes cfg 4000 1 8 spec (after offered) assigned_db
      (assign_row 8 (request_in (after offered))) refl

abbrev approving : Outcome Error (Db × Quote)
approving = decide_quote cfg 4000 1 5 1 Decision.approve (after offered)

abbrev approved_db : Db
approved_db = committed (after offered) approving

abbrev offer : Quote
offer = record {
  id = 1;
  request_id = 1;
  provider_id = some 7;
  amount_halalas = 15000;
  scope = "leak";
  status = QuoteStatus.proposed;
  decided_at = none;
}

decide_quote-wins_example :
    (r : ServiceRequest) × (find_request 1 (after offered).tables ≡ some r)
    × (r.status ≡ pending_dispatch)
    × (holds r.customer_id 5 ≡ true)
    × (find_request 1 approved_db.tables
        ≡ some (record r { assigned_provider_id = some 7; status = RequestStatus.assigned }))
    × (find_quote 1 approved_db.tables ≡ some (decide_row 4000 QuoteStatus.approved offer))
    × (any (λ (p : Payment). p.quote_id == 1) approved_db.payments ≡ true)
    × (count (is_open_for 1) approved_db.opportunities ≡ 0)
    × (count (is_loser 1 1) approved_db.quotes ≡ 0)
unfolding run step opening create submit_provider_quote decide_quote
decide_quote-wins_example =
    decide_quote-wins cfg 4000 1 5 1 7 (after offered) approved_db
      (decide_row 4000 QuoteStatus.approved offer) offer refl refl refl
