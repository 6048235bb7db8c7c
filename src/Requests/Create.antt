-- ===== src/Requests/Create.antt =====
-- create and rateRequest. A submission is the idempotency key of the client and the fingerprint of
-- the content; the columns that no decision reads (address, details, timing, images) are
-- left out.
use Prim.Native.String.{String}
use moeen.Base.{
  ◌&&◌, ◌++◌, ◌>>=◌, ◌>>◌, ◌∷◌, Bool, Option, Outcome, [], err, find_first, guard, holds,
  if◌then◌else◌, is_some, none, not, ok, or_fail, select, some, suc, update_by, ℕ,
}
use moeen.Store.{
  Db, DedupeKey, Error, EventType, NotificationType, Point, RequestStatus, ServiceRequest, Tables,
  Tx, find_request, insert_event, pending_dispatch, status_eq, submission_conflict,
  submission_replay, unrated_not_found,
}
use moeen.Outbox.Writer.{Config, best_effort, enqueue_customer_notification}
use moeen.Requests.Opportunities.{invite_all, is_eligible}

pub record Submission : Type 0 where
  pub client_submission_id : ℕ
  pub submission_fingerprint : ℕ

-- The unique index on (customer_id, client_submission_id).
abbrev pub is_submission_of : ℕ → ℕ → ServiceRequest → Bool
is_submission_of cid key r = holds r.customer_id cid && holds r.client_submission_id key

-- ON CONFLICT DO NOTHING, and the comparison with the row that won.
unfoldable pub arbitrate : ℕ → Option Submission → Tables → Outcome Error (Unit {0})
arbitrate cid none t = ok tt
arbitrate cid (some s) t =
    elim (find_first (is_submission_of cid s.client_submission_id) t.requests) [
      | none ↦ ok tt
      | some existing ↦ err (
          if holds existing.submission_fingerprint s.submission_fingerprint
          then submission_replay
          else submission_conflict)
    ]

abbrev pub submission_key : Option Submission → Option ℕ
submission_key none = none
submission_key (some s) = some s.client_submission_id

abbrev pub submission_print : Option Submission → Option ℕ
submission_print none = none
submission_print (some s) = some s.submission_fingerprint

abbrev pub new_request : ℕ → ℕ → Option Point → Option Submission → Tables → ServiceRequest
new_request service cid location submission t = record {
  id = t.next_request_id;
  service_id = service;
  customer_id = some cid;
  client_submission_id = submission_key submission;
  submission_fingerprint = submission_print submission;
  location = location;
  status = pending_dispatch;
  assigned_provider_id = none;
  rating = none;
  rating_comment = none;
}

module _ (cfg : Config) (now : ℕ) where
  unfoldable pub create : ℕ → ℕ → Option Point → Option Submission → Db → Tx ServiceRequest
  unfolding arbitrate invite_all insert_event enqueue_customer_notification
  create service cid location submission db = do
    arbitrate cid submission db.tables
    let row = new_request service cid location submission db.tables
    let eligible = select (is_eligible service) db.providers
    let (opportunities, invited_journal, inserted) =
        invite_all cfg now row.id pending_dispatch eligible (
          db.opportunities,
          insert_event row.id EventType.request_created pending_dispatch db.journal,
          [],
        )
    ok (
      record {
        tables = record db.tables {
          requests = db.requests ++ (row ∷ []);
          next_request_id = suc db.next_request_id;
          opportunities = opportunities;
        };
        journal =
            enqueue_customer_notification cfg now NotificationType.request_created row.id (some cid)
              (DedupeKey.request_created row.id) best_effort invited_journal;
      },
      row,
    )

abbrev pub rate_row : ℕ → Option String → ServiceRequest → ServiceRequest
rate_row rating comment r = record r { rating = some rating; rating_comment = comment }

unfoldable pub rate_request : ℕ → ℕ → ℕ → Option String → Db → Tx (Unit {0})
rate_request rid cid rating comment db = do
  request ← or_fail (find_request rid db.tables) unrated_not_found
  guard
      (holds request.customer_id cid
        && (status_eq request.status RequestStatus.completed && not (is_some request.rating)))
      unrated_not_found
  ok (
    record db {
      tables = record db.tables {
        requests =
            update_by (λ (r : ServiceRequest). r.id) rid (rate_row rating comment) db.requests;
      };
    },
    tt,
  )
