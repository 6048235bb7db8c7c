-- ===== src/System/Refinement.antt =====
-- The transactions, against the life of a request of System/Moves.
use moeen.Base.{ℕ}
use moeen.Store.{Db, Point}
use moeen.Outbox.Writer.{Config}
use moeen.System.{
  Command, assigns, closes, collects, creates, decides, invites, proposes, prunes, rates, refunds,
  sets_availability, step, stops_tracking, submits, submits_sample, updates_status,
  updates_status_for_provider, verifies, withdraws,
}
use moeen.System.MoveSteps.{
  assigns-Moves, closes-Moves, collects-Moves, creates-Moves, decides-Moves, invites-Moves,
  proposes-Moves, prunes-Moves, rates-Moves, refunds-Moves, sets_availability-Moves,
  stops_tracking-Moves, submits-Moves, submits_sample-Moves, updates_status-Moves,
  updates_status_for_provider-Moves, verifies-Moves, withdraws-Moves,
}
use moeen.System.Moves.{Changes}

-- A transaction leaves the requests alone, adds one request, pending dispatch, without a provider
-- or a rating, under the next identifier, or makes one move on one request.
pub step-Change :
    (distance : Point → Point → ℕ) (cfg : Config) (c : ℕ × Command) (db : Db)
    → Changes db.tables (step distance cfg c db).tables
unfolding step
step-Change d cfg (now, creates service cid location submission) db =
    creates-Moves now db cfg service cid location submission
step-Change d cfg (now, rates rid cid rating comment) db =
    rates-Moves now db cfg rid cid rating comment
step-Change d cfg (now, assigns rid pid audit) db = assigns-Moves now db cfg rid pid audit
step-Change d cfg (now, updates_status rid status audit) db =
    updates_status-Moves now db cfg rid status audit
step-Change d cfg (now, updates_status_for_provider rid pid target) db =
    updates_status_for_provider-Moves now db cfg rid pid target
step-Change d cfg (now, proposes rid amount scope audit) db =
    proposes-Moves now db cfg rid amount scope audit
step-Change d cfg (now, submits rid pid amount scope) db =
    submits-Moves now db cfg rid pid amount scope
step-Change d cfg (now, decides rid cid qid decision) db =
    decides-Moves now db cfg rid cid qid decision
step-Change d cfg (now, invites rid pids audit) db = invites-Moves now db cfg rid pids audit
step-Change d cfg (now, withdraws qid pid) db = withdraws-Moves now db cfg qid pid
step-Change d cfg (now, closes rid pid audit) db = closes-Moves now db cfg rid pid audit
step-Change d cfg (now, collects rid audit) db = collects-Moves now db rid audit
step-Change d cfg (now, refunds rid audit) db = refunds-Moves now db rid audit
step-Change d cfg (now, verifies pid status audit expected) db =
    verifies-Moves now db cfg pid status audit expected
step-Change d cfg (now, sets_availability pid available) db =
    sets_availability-Moves now db pid available
step-Change d cfg (now, submits_sample rid pid s) db = submits_sample-Moves now db cfg d rid pid s
step-Change d cfg (now, stops_tracking rid) db = stops_tracking-Moves now db cfg rid
step-Change d cfg (now, prunes raw derived batch) db = prunes-Moves now db raw derived batch
