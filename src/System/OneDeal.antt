-- ===== src/System/OneDeal.antt =====
-- Histories of transactions, against the invariant of Deals.
use moeen.Base.{◌∷◌, ◌≤◌, List, [], arith, count, if◌then◌else◌, total-le, ℕ}
use moeen.Store.{Db, Point, Provider}
use moeen.Deals.{Deals, cap_at, is_approved_for, is_deal, is_payment_of}
use moeen.Deals.Statements.{cap_at-le_one}
use moeen.Outbox.Writer.{Config}
use moeen.System.{
  Command, assigns, closes, collects, creates, decides, invites, opening, proposes, prunes, rates,
  refunds, run, sets_availability, step, stops_tracking, submits, submits_sample, updates_status,
  updates_status_for_provider, verifies, withdraws,
}
use moeen.System.DealSteps.{
  assigns-Deals, closes-Deals, collects-Deals, creates-Deals, decides-Deals, invites-Deals,
  proposes-Deals, prunes-Deals, rates-Deals, refunds-Deals, sets_availability-Deals,
  stops_tracking-Deals, submits-Deals, submits_sample-Deals, updates_status-Deals,
  updates_status_for_provider-Deals, verifies-Deals, withdraws-Deals,
}

module _ (distance : Point → Point → ℕ) (cfg : Config) where
  step-Deals : (c : ℕ × Command) (db : Db) → Deals db.tables → Deals (step distance cfg c db).tables
  unfolding step
  step-Deals (now, creates service cid location submission) db h =
      creates-Deals cfg now db h service cid location submission
  step-Deals (now, rates rid cid rating comment) db h =
      rates-Deals cfg now db h rid cid rating comment
  step-Deals (now, assigns rid pid audit) db h = assigns-Deals cfg now db h rid pid audit
  step-Deals (now, updates_status rid status audit) db h =
      updates_status-Deals cfg now db h rid status audit
  step-Deals (now, updates_status_for_provider rid pid target) db h =
      updates_status_for_provider-Deals cfg now db h rid pid target
  step-Deals (now, proposes rid amount scope audit) db h =
      proposes-Deals cfg now db h rid amount scope audit
  step-Deals (now, submits rid pid amount scope) db h =
      submits-Deals cfg now db h rid pid amount scope
  step-Deals (now, decides rid cid qid decision) db h =
      decides-Deals cfg now db h rid cid qid decision
  step-Deals (now, invites rid pids audit) db h = invites-Deals cfg now db h rid pids audit
  step-Deals (now, withdraws qid pid) db h = withdraws-Deals cfg now db h qid pid
  step-Deals (now, closes rid pid audit) db h = closes-Deals cfg now db h rid pid audit
  step-Deals (now, collects rid audit) db h = collects-Deals cfg now db h rid audit
  step-Deals (now, refunds rid audit) db h = refunds-Deals cfg now db h rid audit
  step-Deals (now, verifies pid status audit expected) db h =
      verifies-Deals cfg now db h pid status audit expected
  step-Deals (now, sets_availability pid available) db h =
      sets_availability-Deals cfg now db h pid available
  step-Deals (now, submits_sample rid pid s) db h =
      submits_sample-Deals cfg now db h distance rid pid s
  step-Deals (now, stops_tracking rid) db h = stops_tracking-Deals cfg now db h rid
  step-Deals (now, prunes raw derived batch) db h = prunes-Deals cfg now db h raw derived batch

  pub run-Deals :
      (cs : List (ℕ × Command)) (db : Db) → Deals db.tables → Deals (run distance cfg cs db).tables
  unfolding run
  run-Deals [] db h = h
  run-Deals (c ∷ cs) db h = run-Deals cs (step distance cfg c db) (step-Deals c db h)

opening-Deals :
    (providers : List Provider) (staff : List ℕ) → Deals (opening providers staff).tables
unfolding opening
opening-Deals providers staff = record {
  fresh = tt;
  deals = λ j. omega arith;
  paid = λ j. omega arith;
}

-- After any history of transactions on a database that holds providers and staff only, a request
-- has at most one quote that binds it (approved by the customer, or proposed by the staff), none
-- while it is pending dispatch, and at most as many payments as approved quotes: one at most.
pub run-opening_one_deal :
    (distance : Point → Point → ℕ) (cfg : Config) (providers : List Provider) (staff : List ℕ)
    (cs : List (ℕ × Command)) (rid : ℕ)
    → let t = (run distance cfg cs (opening providers staff)).tables in
      (count (is_deal rid) t.quotes ≤ cap_at rid t.requests)
      × (count (is_payment_of rid) t.payments ≤ count (is_approved_for rid) t.quotes)
      × (count (is_payment_of rid) t.payments ≤ 1)
run-opening_one_deal distance cfg providers staff cs rid =
    let h = run-Deals distance cfg cs (opening providers staff) (opening-Deals providers staff) in
    let t = (run distance cfg cs (opening providers staff)).tables in
    let few =
      total-le (λ q. if is_approved_for rid q then 1 else 0) (λ q. if is_deal rid q then 1 else 0)
        t.quotes (λ q. ground arith) in
    (
      h.deals rid,
      h.paid rid,
      omega (arith, h.deals rid, h.paid rid, few, cap_at-le_one rid t.requests),
    )
