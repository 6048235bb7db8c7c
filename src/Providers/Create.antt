-- ===== src/Providers/Create.antt =====
-- createPilotProvider of apps/api/src/service-request.repository.ts; the random identifier is an
-- argument.
use moeen.Base.{
  ◌++◌, ◌==◌, ◌>>=◌, ◌>>◌, ◌∷◌, List, Option, [], any, false, guard, none, not, ok, some, ℕ,
}
use moeen.Store.{
  AuditSpec, AuditState, Db, Provider, Tx, VerificationStatus, insert_staff_audit_event,
  unique_violation,
}
use mathlib.Core.Option

-- createPilotProvider: pending and unavailable, under a fresh identifier.
unfoldable pub create_pilot_provider : ℕ → List ℕ → Option AuditSpec → Db → Tx Provider
unfolding insert_staff_audit_event
create_pilot_provider pid specialties audit db = do
  let provider : Provider = record {
    id = pid;
    specialties = specialties;
    available = false;
    verification_status = VerificationStatus.pending;
  }
  guard (not (any (λ (p : Provider). p.id == pid) db.tables.providers)) unique_violation
  journal ←
      insert_staff_audit_event
        (Option.map (λ (spec : AuditSpec). record spec { subject_id = pid }) audit) none
        (some (AuditState.created_state VerificationStatus.pending)) db.journal
  ok (
    record {
      tables = record db.tables { providers = db.tables.providers ++ (provider ∷ []) };
      journal = journal;
    },
    provider,
  )
