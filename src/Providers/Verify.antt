-- ===== src/Providers/Verify.antt =====
-- Pilot providers in apps/api/src/service-request.repository.ts: updateProviderAvailability and
-- updatePilotProviderVerification, with the end of the tracking of a suspended provider.
use moeen.Base.{
  ◌&&◌, ◌==◌, ◌>>=◌, ◌>>◌, Bool, Option, any, delete_where, guard, if◌then◌else◌, none, not, ok,
  or_fail, select, some, true, update_by, update_where, ℕ,
}
use moeen.Store.{
  AuditSpec, AuditState, CurrentPosition, Db, Provider, SessionState, StopReason, Tables,
  TrackingSession, Tx, VerificationStatus, find_provider, insert_staff_audit_event,
  is_active_session, is_verified, provider_not_found, verification_eq, verification_precondition,
  verified_provider_not_found,
}
use moeen.Outbox.Writer.{Config}

-- UPDATE providers … WHERE id = $1.
unfoldable pub set_provider : ℕ → (Provider → Provider) → Tables → Tables
set_provider pid f t = record t { providers = update_by (λ (p : Provider). p.id) pid f t.providers }

abbrev pub verify_row : VerificationStatus → Provider → Provider
verify_row status p = record p { verification_status = status; available = is_verified status }

abbrev pub is_active_session_of : ℕ → TrackingSession → Bool
is_active_session_of pid s = s.provider_id == pid && is_active_session s.state

abbrev pub suspend_session : ℕ → TrackingSession → TrackingSession
suspend_session now s = record s {
  state = SessionState.stopped;
  stopped_at = some now;
  stop_reason = some StopReason.provider_suspended;
}

-- The active sessions of the provider stop, and their current positions go.
unfoldable pub suspend_tracking : ℕ → ℕ → Tables → Tables
suspend_tracking now pid t =
    let active = select (is_active_session_of pid) t.sessions in
    record t {
      sessions = update_where (is_active_session_of pid) (suspend_session now) t.sessions;
      positions =
          delete_where
            (λ (p : CurrentPosition).
              p.provider_id == pid
              && any (λ (s : TrackingSession). s.request_id == p.request_id) active)
            t.positions;
    }

-- `if (expectedCurrentStatus && …)`.
abbrev pub meets : Option VerificationStatus → VerificationStatus → Bool
meets none status = true
meets (some expected) status = verification_eq expected status

module _ (cfg : Config) (now : ℕ) where
  unfoldable pub verification_tables : ℕ → VerificationStatus → Tables → Tables
  unfolding set_provider suspend_tracking
  verification_tables pid status t =
      let t' = set_provider pid (verify_row status) t in
      if not (is_verified status) && cfg.tracking_enabled then suspend_tracking now pid t' else t'

  unfoldable pub update_pilot_provider_verification :
      ℕ → VerificationStatus → Option AuditSpec → Option VerificationStatus → Db → Tx Provider
  unfolding verification_tables insert_staff_audit_event
  update_pilot_provider_verification pid status audit expected db = do
    provider ← or_fail (find_provider pid db.tables) provider_not_found
    guard (meets expected provider.verification_status) verification_precondition
    let row = verify_row status provider
    journal ←
        insert_staff_audit_event audit
          (some (AuditState.provider_state provider.verification_status provider.available))
          (some (AuditState.provider_state row.verification_status row.available)) db.journal
    ok (record { tables = verification_tables pid status db.tables; journal = journal }, row)

unfoldable pub update_provider_availability : ℕ → Bool → Db → Tx Provider
unfolding set_provider
update_provider_availability pid available db = do
  provider ← or_fail (find_provider pid db.tables) verified_provider_not_found
  guard (is_verified provider.verification_status) verified_provider_not_found
  ok (
    record db { tables = set_provider pid (λ p. record p { available = available }) db.tables },
    record provider { available = available },
  )
