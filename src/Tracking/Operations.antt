-- ===== src/Tracking/Operations.antt =====
-- stopProviderTrackingForOperations and findCurrentProviderPosition of
-- apps/api/src/service-request.repository.ts.
use moeen.Base.{
  ◌&&◌, ◌==◌, ◌>>=◌, ◌>>◌, Bool, Option, false, find_first, guard, holds, if◌then◌else◌, none, ok,
  or_fail, some, true, ℕ,
}
use moeen.Store.{
  CurrentPosition, Db, ServiceRequest, StopReason, Tables, TrackingSession, Tx, find_request,
  find_session, is_active_session, request_not_found, tracking_disabled,
}
use moeen.Outbox.Writer.{Config}
use moeen.Tracking.Sample.{is_trackable}
use moeen.Tracking.Session.{stop_provider_tracking}

-- Who asks for a position: the provider, the customer, or the operations staff.
pub data Reader : Type 0 where
  provider_reader customer_reader : ℕ → Reader
  operations_reader : Reader

-- The authorization predicate of each reader.
abbrev pub may_read : Reader → ServiceRequest → Bool
may_read (provider_reader pid) r = holds r.assigned_provider_id pid
may_read (customer_reader cid) r = holds r.customer_id cid
may_read operations_reader r = true

-- The joins on the session and the request, and the WHERE clause.
abbrev pub is_visible :
    Reader → Option TrackingSession → Option ServiceRequest → CurrentPosition → Bool
is_visible reader (some s) (some r) p =
    s.provider_id == p.provider_id
    && (is_active_session s.state && (is_trackable r.status && may_read reader r))
is_visible reader _ _ p = false

module _ (cfg : Config) where
  unfoldable pub find_current_provider_position : Reader → ℕ → Tables → Option CurrentPosition
  find_current_provider_position reader rid t =
      if cfg.tracking_enabled
      then find_first
          (λ (p : CurrentPosition).
            p.request_id == rid && is_visible reader (find_session rid t) (find_request rid t) p)
          t.positions
      else none

  unfoldable pub stop_provider_tracking_for_operations : ℕ → ℕ → Db → Tx (Unit {0})
  unfolding stop_provider_tracking
  stop_provider_tracking_for_operations now rid db = do
    guard cfg.tracking_enabled tracking_disabled
    request ← or_fail (find_request rid db.tables) request_not_found
    ok (
      record db {
        tables = stop_provider_tracking now rid StopReason.operations_emergency db.tables;
      },
      tt,
    )
