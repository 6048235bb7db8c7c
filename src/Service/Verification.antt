-- ===== src/Service/Verification.antt =====
-- The life of a pilot provider as the staff drive it: pending, then verified and suspended in turn.
use moeen.Base.{
  ◌==◌, ◌>>◌, ◌∙◌, ◌≡◌, Option, Outcome, Text, ap, arith, err, false, find_by, find_by-update_by,
  guard, guard-eq-ok, ok, refl, some, sym, true, update_by, ℕ,
}
use moeen.Store.{
  AuditSpec, Db, Error, Provider, Tables, VerificationStatus, find_provider,
  verification_precondition,
}
use moeen.Outbox.Writer.{Config}
use moeen.Providers.Inversion.{update_pilot_provider_verification_inv}
use moeen.Providers.Verify.{
  meets, set_provider, suspend_tracking, update_pilot_provider_verification, verification_tables,
  verify_row,
}
use moeen.Service.Accounts.{ServiceError, stored}
use moeen.Service.Pilots.{
  is_pilot_id, reactivate_pilot_provider, suspend_pilot_provider, verify_pilot_provider,
}

pub data PilotStep : Type 0 where
  verifies suspends reactivates : PilotStep

abbrev pub start_status : PilotStep → VerificationStatus
start_status PilotStep.verifies = VerificationStatus.pending
start_status PilotStep.suspends = VerificationStatus.verified
start_status PilotStep.reactivates = VerificationStatus.suspended

abbrev pub end_status : PilotStep → VerificationStatus
end_status PilotStep.verifies = VerificationStatus.verified
end_status PilotStep.suspends = VerificationStatus.suspended
end_status PilotStep.reactivates = VerificationStatus.verified

stored-eq-ok : {A : Type 0} (o : Outcome Error A) {a : A} → stored o ≡ ok a → o ≡ ok a
stored-eq-ok (ok a) e = cc
stored-eq-ok (err x) e = cc

module _ (key : Text → ℕ) (cfg : Config) (now : ℕ) (id : Text) (audit : Option AuditSpec) where
  abbrev pub perform : PilotStep → Db → Outcome ServiceError (Db × Provider)
  perform PilotStep.verifies db = verify_pilot_provider key cfg now id audit db
  perform PilotStep.suspends db = suspend_pilot_provider key cfg now id audit db
  perform PilotStep.reactivates db = reactivate_pilot_provider key cfg now id audit db

  perform-eq :
      (move : PilotStep) (db : Db)
      → perform move db ≡ (
          guard (is_pilot_id id) ServiceError.invalid_pilot_provider
          >> stored (
              update_pilot_provider_verification cfg now
                (key id)
                (end_status move)
                audit
                (some (start_status move))
                db))
  unfolding verify_pilot_provider suspend_pilot_provider reactivate_pilot_provider
  perform-eq PilotStep.verifies db = refl
  perform-eq PilotStep.suspends db = refl
  perform-eq PilotStep.reactivates db = refl

verification_tables-providers :
    (cfg : Config) (now pid : ℕ) (status : VerificationStatus) (t : Tables)
    → (verification_tables cfg now pid status t).providers
      ≡ update_by (λ (p : Provider). p.id) pid (verify_row status) t.providers
unfolding verification_tables set_provider suspend_tracking
verification_tables-providers cfg now pid status t = ground arith

met-start_status :
    (move : PilotStep) (status : VerificationStatus)
    → meets (some (start_status move)) status ≡ true
    → status ≡ start_status move
met-start_status PilotStep.verifies status e = ground (arith, e)
met-start_status PilotStep.suspends status e = ground (arith, e)
met-start_status PilotStep.reactivates status e = ground (arith, e)

unmet-end_status : (move : PilotStep) → meets (some (start_status move)) (end_status move) ≡ false
unmet-end_status PilotStep.verifies = refl
unmet-end_status PilotStep.suspends = refl
unmet-end_status PilotStep.reactivates = refl

-- A verification, a suspension or a reactivation that returns was asked for a pilot provider in the
-- status that it starts from, and leaves that provider in its target status, available exactly when
-- that is `verified`; no other provider changes, and the same step again is refused.
pub perform-moves :
    (key : Text → ℕ) (cfg : Config) (now later : ℕ) (id : Text) (audit again : Option AuditSpec)
    (move : PilotStep) (db db' : Db) (row : Provider)
    → perform key cfg now id audit move db ≡ ok (db', row)
    → (is_pilot_id id ≡ true)
      × ((p : Provider) × (find_provider (key id) db.tables ≡ some p)
          × (p.verification_status ≡ start_status move)
          × (find_provider (key id) db'.tables ≡ some (verify_row (end_status move) p)))
      × ((j : ℕ) → (key id == j) ≡ false → find_provider j db'.tables ≡ find_provider j db.tables)
      × (perform key cfg later id again move db'
          ≡ err (ServiceError.thrown verification_precondition))
unfolding update_pilot_provider_verification
perform-moves key cfg now later id audit again move db db' row e =
    let (pilot, e1) =
      guard-eq-ok (is_pilot_id id) ServiceError.invalid_pilot_provider _
        (sym (perform-eq key cfg now id audit move db) ∙ e) in
    let (p, found, met, tables) =
      update_pilot_provider_verification_inv db db' cfg now (key id) (end_status move) audit
        (some (start_status move)) row (stored-eq-ok _ e1) in
    let providers : db'.tables.providers
        ≡ update_by (λ (p : Provider). p.id) (key id) (verify_row (end_status move))
            db.tables.providers =
      ap (λ (t : Tables). t.providers) tables
      ∙ verification_tables-providers cfg now (key id) (end_status move) db.tables in
    let read = λ (j : ℕ).
      ap (find_by (λ (p : Provider). p.id) j) providers
      ∙ find_by-update_by (λ (p : Provider). p.id) (key id) j (verify_row (end_status move))
          db.tables.providers (λ x. refl) in
    let moved : find_provider (key id) db'.tables ≡ some (verify_row (end_status move) p) =
      ground (arith, read (key id), found) in
    (
      pilot,
      (p, found, met-start_status move p.verification_status met, moved),
      λ j other. rw other at (read j),
      rw (perform-eq key cfg later id again move db', pilot, moved, unmet-end_status move) refl,
    )
