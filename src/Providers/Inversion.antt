-- ===== src/Providers/Inversion.antt =====
-- What a transaction on a provider found when it committed, and the tables it left.
use moeen.Base.{◌≡◌, Bool, Option, arith, guard-eq-ok, ok, or_fail-eq-ok, some, true, ℕ}
use moeen.Store.{
  AuditSpec, Db, Provider, VerificationStatus, find_provider, is_verified, provider_not_found,
  verification_precondition, verified_provider_not_found,
}
use moeen.Outbox.Writer.{Config}
use moeen.Providers.Verify.{
  meets, set_provider, update_pilot_provider_verification, update_provider_availability,
  verification_tables,
}

module _ (db db' : Db) where
  pub update_pilot_provider_verification_inv :
      (cfg : Config) (now pid : ℕ) (status : VerificationStatus) (audit : Option AuditSpec)
      (expected : Option VerificationStatus) (row : Provider)
      → update_pilot_provider_verification cfg now pid status audit expected db ≡ ok (db', row)
      → (p : Provider) × (find_provider pid db.tables ≡ some p)
        × (meets expected p.verification_status ≡ true)
        × (db'.tables ≡ verification_tables cfg now pid status db.tables)
  unfolding update_pilot_provider_verification
  update_pilot_provider_verification_inv cfg now pid status audit expected row e =
      let (p, found, e1) = or_fail-eq-ok (find_provider pid db.tables) provider_not_found _ e in
      let (met, e2) =
        guard-eq-ok (meets expected p.verification_status) verification_precondition _ e1 in
      (p, found, met, ground arith)

  pub update_provider_availability_inv :
      (pid : ℕ) (available : Bool) (row : Provider)
      → update_provider_availability pid available db ≡ ok (db', row)
      → (p : Provider) × (find_provider pid db.tables ≡ some p)
        × (is_verified p.verification_status ≡ true)
        × (db'.tables ≡ set_provider pid (λ x. record x { available = available }) db.tables)
  unfolding update_provider_availability
  update_provider_availability_inv pid available row e =
      let (p, found, e1) =
        or_fail-eq-ok (find_provider pid db.tables) verified_provider_not_found _ e in
      let (verified, e2) =
        guard-eq-ok (is_verified p.verification_status) verified_provider_not_found _ e1 in
      (p, found, verified, ground arith)
