-- ===== src/Service/Pilots.antt =====
-- The pilot providers in apps/api/src/app.service.ts: their registration, the steps of their
-- verification, and their access codes.
use moeen.Base.{
  ◌&&◌, ◌>>◌, ◌∷◌, Bool, List, Option, Outcome, Text, [], any, codes, delete_where, guard, is_empty,
  is_some, leb, length, not, some, text_eq, trim, ℕ,
}
use moeen.Store.{AuditSpec, Db, Provider, VerificationStatus}
use moeen.Auth.Platform.{Platform}
use moeen.Auth.Providers.{ProviderAuth, set_provider_access_code}
use moeen.Ids.Public.{after_prefix}
use moeen.Outbox.Writer.{Config}
use moeen.Providers.Create.{create_pilot_provider}
use moeen.Providers.Verify.{update_pilot_provider_verification}
use moeen.Service.Accounts.{ServiceError, stored}
use moeen.Service.Invitations.{distinct_texts, keys_of}

-- getLaunchServices.
abbrev pub launch_services : List Text
launch_services =
    codes "ac-cleaning"
    ∷ codes "upholstery"
    ∷ codes "home-cleaning"
    ∷ codes "tank-cleaning"
    ∷ codes "plumbing"
    ∷ []

abbrev pub is_launch_service : Text → Bool
is_launch_service id = any (text_eq id) launch_services

-- The specialties that are kept.
unfoldable pub launch_specialties : List Text → List Text
unfolding distinct_texts text_eq
launch_specialties specialties =
    delete_where (λ id. not (is_launch_service id)) (distinct_texts specialties)

-- `providerId.startsWith('PILOT-')`.
abbrev pub is_pilot_id : Text → Bool
unfolding after_prefix
is_pilot_id id = is_some (after_prefix (codes "PILOT-") id)

module _ (key : Text → ℕ) where
  -- The identifier of the new row is an argument, as in the store.
  unfoldable pub register_pilot_provider :
      ℕ → Text → List Text → Text → Option AuditSpec → Db → Outcome ServiceError (Db × Provider)
  unfolding trim launch_specialties create_pilot_provider
  register_pilot_provider pid name specialties zone audit db = do
    let kept = launch_specialties specialties
    guard (leb 2 (length (trim name)) && (leb 2 (length (trim zone)) && not (is_empty kept)))
        ServiceError.invalid_pilot_provider
    stored (create_pilot_provider pid (keys_of key kept) audit db)

  module _ (cfg : Config) (now : ℕ) (id : Text) (audit : Option AuditSpec) (db : Db) where
    -- verifyPilotProvider, suspendPilotProvider and reactivatePilotProvider.
    unfoldable pub verify_pilot_provider : Outcome ServiceError (Db × Provider)
    unfolding update_pilot_provider_verification
    verify_pilot_provider = do
      guard (is_pilot_id id) ServiceError.invalid_pilot_provider
      stored (
          update_pilot_provider_verification cfg now (key id) VerificationStatus.verified audit
            (some VerificationStatus.pending) db)

    unfoldable pub suspend_pilot_provider : Outcome ServiceError (Db × Provider)
    unfolding update_pilot_provider_verification
    suspend_pilot_provider = do
      guard (is_pilot_id id) ServiceError.invalid_pilot_provider
      stored (
          update_pilot_provider_verification cfg now (key id) VerificationStatus.suspended audit
            (some VerificationStatus.verified) db)

    unfoldable pub reactivate_pilot_provider : Outcome ServiceError (Db × Provider)
    unfolding update_pilot_provider_verification
    reactivate_pilot_provider = do
      guard (is_pilot_id id) ServiceError.invalid_pilot_provider
      stored (
          update_pilot_provider_verification cfg now (key id) VerificationStatus.verified audit
            (some VerificationStatus.suspended) db)

  unfoldable pub set_pilot_provider_access_code :
      Platform
      → List ℕ
      → Text
      → Text
      → Option AuditSpec
      → ProviderAuth
      → Outcome ServiceError ProviderAuth
  unfolding trim set_provider_access_code
  set_pilot_provider_access_code platform salt id code audit s = do
    guard (leb 3 (length (trim id)) && leb 16 (length (trim code)))
        ServiceError.invalid_provider_access_code
    stored (set_provider_access_code platform salt (key id) (trim code) audit s)
