-- ===== src/System.antt =====
-- The transactions of the repository as commands on one database: each is atomic, and one that
-- throws leaves the database as it was. Concurrent transactions on a request are serialized by the
-- row lock that each takes first (SELECT … FOR UPDATE), so a history is a list of commands.
use Prim.Native.String.{String}
use moeen.Base.{◌∷◌, Bool, List, Option, [], committed, ℕ}
use moeen.Store.{AuditSpec, Db, Point, Provider, ProviderStatus, RequestStatus, VerificationStatus}
use moeen.Market.Decide.{Decision, decide_quote}
use moeen.Market.Marketplace.{
  close_provider_opportunity, invite_providers_to_request, withdraw_provider_quote,
}
use moeen.Market.Propose.{propose_quote, submit_provider_quote}
use moeen.Outbox.Writer.{Config}
use moeen.Payments.Collect.{collect_cash_payment, refund_cash_payment}
use moeen.Providers.Verify.{update_pilot_provider_verification, update_provider_availability}
use moeen.Requests.Assign.{assign_provider}
use moeen.Requests.Create.{Submission, create, rate_request}
use moeen.Requests.Transition.{update_status, update_status_for_provider}
use moeen.Tracking.Operations.{stop_provider_tracking_for_operations}
use moeen.Tracking.Retention.{prune_provider_tracking_data}
use moeen.Tracking.Sample.{Sample, submit_provider_location_sample}
pub mod DealSteps
pub mod OneDeal
pub mod Moves
pub mod MoveSteps
pub mod Refinement
pub mod Progress
pub mod TrackedTables
pub mod TrackedSteps
pub mod Tracked
pub mod Privacy
pub mod Examples
pub mod Operations
pub mod Cases

-- What the callers of the repository ask for, with the time of the database clock.
pub data Command : Type 0 where
  creates : ℕ → ℕ → Option Point → Option Submission → Command
  rates : ℕ → ℕ → ℕ → Option String → Command
  assigns : ℕ → ℕ → Option AuditSpec → Command
  updates_status : ℕ → RequestStatus → Option AuditSpec → Command
  updates_status_for_provider : ℕ → ℕ → ProviderStatus → Command
  proposes : ℕ → ℕ → String → Option AuditSpec → Command
  submits : ℕ → ℕ → ℕ → String → Command
  decides : ℕ → ℕ → ℕ → Decision → Command
  invites : ℕ → List ℕ → Option AuditSpec → Command
  withdraws : ℕ → ℕ → Command
  closes : ℕ → ℕ → Option AuditSpec → Command
  collects : ℕ → Option AuditSpec → Command
  refunds : ℕ → Option AuditSpec → Command
  verifies : ℕ → VerificationStatus → Option AuditSpec → Option VerificationStatus → Command
  sets_availability : ℕ → Bool → Command
  submits_sample : ℕ → ℕ → Sample → Command
  stops_tracking : ℕ → Command
  prunes : ℕ → ℕ → ℕ → Command

-- The great-circle distance of Tracking/Sample is an argument of a history.
module _ (distance : Point → Point → ℕ) (cfg : Config) where
  unfoldable pub step : ℕ × Command → Db → Db
  step (now, creates service cid location submission) db =
      committed db (create cfg now service cid location submission db)
  step (now, rates rid cid rating comment) db =
      committed db (rate_request rid cid rating comment db)
  step (now, assigns rid pid audit) db = committed db (assign_provider cfg now rid pid audit db)
  step (now, updates_status rid status audit) db =
      committed db (update_status cfg now rid status audit db)
  step (now, updates_status_for_provider rid pid target) db =
      committed db (update_status_for_provider cfg now rid pid target db)
  step (now, proposes rid amount scope audit) db =
      committed db (propose_quote cfg now rid amount scope audit db)
  step (now, submits rid pid amount scope) db =
      committed db (submit_provider_quote cfg now rid pid amount scope db)
  step (now, decides rid cid qid decision) db =
      committed db (decide_quote cfg now rid cid qid decision db)
  step (now, invites rid pids audit) db =
      committed db (invite_providers_to_request cfg now rid pids audit db)
  step (now, withdraws qid pid) db = committed db (withdraw_provider_quote cfg now qid pid db)
  step (now, closes rid pid audit) db =
      committed db (close_provider_opportunity cfg now rid pid audit db)
  step (now, collects rid audit) db = committed db (collect_cash_payment now rid audit db)
  step (now, refunds rid audit) db = committed db (refund_cash_payment now rid audit db)
  step (now, verifies pid status audit expected) db =
      committed db (update_pilot_provider_verification cfg now pid status audit expected db)
  step (now, sets_availability pid available) db =
      committed db (update_provider_availability pid available db)
  step (now, submits_sample rid pid s) db =
      committed db (submit_provider_location_sample distance cfg now rid pid s db)
  step (now, stops_tracking rid) db =
      committed db (stop_provider_tracking_for_operations cfg now rid db)
  step (now, prunes raw derived batch) db =
      committed db (prune_provider_tracking_data raw derived batch db)

  unfoldable pub run : List (ℕ × Command) → Db → Db
  unfolding step
  run [] db = db
  run (c ∷ cs) db = run cs (step c db)

-- A database with providers and staff, before the first request.
unfoldable pub opening : List Provider → List ℕ → Db
opening providers staff = record {
  tables = record {
    providers = providers;
    requests = [];
    quotes = [];
    opportunities = [];
    payments = [];
    sessions = [];
    positions = [];
    samples = [];
    next_request_id = 1;
    next_quote_id = 1;
    next_payment_id = 1;
  };
  journal = record {
    events = [];
    outbox = [];
    audit = [];
    staff_users = staff;
    next_outbox_id = 1;
  };
}
