-- ===== src/Tracking/Session.antt =====
-- startProviderTracking and stopProviderTracking of apps/api/src/service-request.repository.ts.
use moeen.Base.{
  ◌&&◌, ◌++◌, ◌==◌, ◌>>=◌, ◌>>◌, ◌||◌, ◌∷◌, Bool, Outcome, [], delete_where, guard, if◌then◌else◌,
  is_some, none, ok, or_fail, some, update_where, ℕ,
}
use moeen.Store.{
  CurrentPosition, Error, SessionState, StopReason, Tables, TrackingSession, find_session,
  is_active_session, is_interruption, is_terminal_reason, tracking_not_started,
}

-- INSERT … ON CONFLICT (service_request_id) DO NOTHING.
abbrev pub insert_session : ℕ → ℕ → ℕ → Tables → Tables
insert_session now rid pid t = if is_some (find_session rid t) then t else record t {
  sessions =
      t.sessions
      ++ (record {
        request_id = rid;
        provider_id = pid;
        state = SessionState.active;
        started_at = now;
        stopped_at = none;
        stop_reason = none;
        arrival_qualifying_sample_count = 0;
        arrival_first_qualifying_at = none;
        arrival_last_qualifying_at = none;
        arrival_observed_at = none;
      }
          ∷ []);
}

-- A session of another provider, or one that was stopped, refuses the start.
unfoldable pub start_provider_tracking : ℕ → ℕ → ℕ → Tables → Outcome Error Tables
start_provider_tracking now rid pid t = do
  let t' = insert_session now rid pid t
  session ← or_fail (find_session rid t') tracking_not_started
  guard (session.provider_id == pid && is_active_session session.state) tracking_not_started
  ok t'

-- The WHERE clause of the stop: an active session, or an interrupted one that ends for good.
abbrev pub is_stoppable : StopReason → TrackingSession → Bool
is_stoppable reason s =
    is_active_session s.state || (is_terminal_reason reason && is_interruption s.stop_reason)

abbrev pub stop_session : ℕ → StopReason → TrackingSession → TrackingSession
stop_session now reason s = record s {
  state = SessionState.stopped;
  stopped_at = if is_active_session s.state then some now else s.stopped_at;
  stop_reason = some reason;
}

-- The current position of the request goes, whether or not a session was stopped.
unfoldable pub stop_provider_tracking : ℕ → ℕ → StopReason → Tables → Tables
stop_provider_tracking now rid reason t = record t {
  sessions =
      update_where (λ (s : TrackingSession). s.request_id == rid && is_stoppable reason s)
        (stop_session now reason) t.sessions;
  positions = delete_where (λ (p : CurrentPosition). p.request_id == rid) t.positions;
}
