-- ===== src/Auth/Providers.antt =====
-- The access codes and sessions of providers: setProviderAccessCode, findProviderByAccessCode and
-- the provider_sessions of apps/api/src/service-request.repository.ts, and provider-auth.service.ts.
-- Access codes, tokens and salts are random arguments; the dummy verifications only take time.
use moeen.Base.{
  ◌&&◌, ◌*◌, ◌++◌, ◌+◌, ◌==◌, ◌>>=◌, ◌>>◌, ◌||◌, ◌∷◌, Bool, List, Option, Outcome, Text, [], any,
  delete_where, find_first, guard, if◌then◌else◌, ltb, none, not, ok, or_fail, some, text_eq,
  update_where, ℕ,
}
use moeen.Store.{
  AuditSpec, AuditState, Db, Error, Provider, Tables, access_code_in_use, find_provider,
  insert_staff_audit_event, is_verified, provider_not_found, unique_violation,
  verified_provider_not_found,
}
use moeen.Auth.Credentials.{
  hash_password, is_legacy_provider_access_code_hash, provider_access_code_lookup_id,
  verify_provider_access_code,
}
use moeen.Auth.Failures.{LoginFailure}
use moeen.Auth.Platform.{Platform, hash_token}
use moeen.Tracking.Retention.{day_milliseconds}

pub record AccessCredential : Type 0 where
  pub provider_id : ℕ
  pub access_code_hash : Text
  pub lookup_id : Text

pub record ProviderSession : Type 0 where
  pub token_hash : Text
  pub provider_id : ℕ
  pub expires_at : ℕ

pub record ProviderAuth : Type 0 where
  pub db : Db
  pub credentials : List AccessCredential
  pub provider_sessions : List ProviderSession
  pub login_failures : List LoginFailure

abbrev pub is_credential_of : ℕ → AccessCredential → Bool
is_credential_of pid c = c.provider_id == pid

-- The unique indexes on lookup_id and access_code_hash, against the row that is to be written.
abbrev pub clashes : ℕ → Text → Text → AccessCredential → Bool
clashes pid lookup hash c =
    not (c.provider_id == pid) && (text_eq c.lookup_id lookup || text_eq c.access_code_hash hash)

-- INSERT … ON CONFLICT (provider_id) DO UPDATE.
unfoldable pub upsert_credential : ℕ → Text → Text → List AccessCredential → List AccessCredential
upsert_credential pid lookup hash [] =
    record { provider_id = pid; access_code_hash = hash; lookup_id = lookup } ∷ []
upsert_credential pid lookup hash (c ∷ cs) =
    let rest = upsert_credential pid lookup hash cs in
    if is_credential_of pid c
    then (record c { access_code_hash = hash; lookup_id = lookup }) ∷ cs
    else c ∷ rest

unfoldable pub set_provider_access_code :
    Platform → List ℕ → ℕ → Text → Option AuditSpec → ProviderAuth → Outcome Error ProviderAuth
unfolding upsert_credential hash_password provider_access_code_lookup_id insert_staff_audit_event
set_provider_access_code platform salt pid code audit s = do
  let hash = hash_password platform.scrypt salt code
  let lookup = provider_access_code_lookup_id platform.sha256 code
  provider ← or_fail (find_provider pid s.db.tables) provider_not_found
  guard (not (any (clashes pid lookup hash) s.credentials)) access_code_in_use
  journal ← insert_staff_audit_event audit none (some AuditState.access_code_state) s.db.journal
  ok (record s {
    db = record { tables = s.db.tables; journal = journal };
    credentials = upsert_credential pid lookup hash s.credentials;
    provider_sessions =
        delete_where (λ (x : ProviderSession). x.provider_id == pid) s.provider_sessions;
  })

abbrev pub is_verified_provider : ℕ → Provider → Bool
is_verified_provider pid p = p.id == pid && is_verified p.verification_status

unfoldable pub find_verified_provider : ℕ → Tables → Option Provider
find_verified_provider pid t = find_first (is_verified_provider pid) t.providers

-- The join of the credentials with the verified providers, LIMIT 1.
unfoldable pub find_access_row :
    Text → List AccessCredential → Tables → Option (AccessCredential × Provider)
unfolding find_verified_provider
find_access_row lookup [] t = none
find_access_row lookup (c ∷ cs) t =
    let rest = find_access_row lookup cs t in
    if text_eq c.lookup_id lookup
    then elim (find_verified_provider c.provider_id t) [ none ↦ rest | some p ↦ some (c, p) ]
    else rest

-- A legacy hash is replaced, where it is still the one that was read.
abbrev pub is_same_hash : AccessCredential → AccessCredential → Bool
is_same_hash row c =
    c.provider_id == row.provider_id && text_eq c.access_code_hash row.access_code_hash

unfoldable pub upgrade_hash :
    Platform → List ℕ → Text → AccessCredential → List AccessCredential → List AccessCredential
unfolding is_legacy_provider_access_code_hash hash_password
upgrade_hash platform salt code row cs =
    if is_legacy_provider_access_code_hash row.access_code_hash
    then update_where (is_same_hash row)
        (λ (c : AccessCredential). record c {
          access_code_hash = hash_password platform.scrypt salt code;
        })
        cs
    else cs

-- What follows the lookup: at most one verification.
unfoldable pub check_access_row :
    Platform
    → List ℕ
    → Text
    → Option (AccessCredential × Provider)
    → ProviderAuth
    → ProviderAuth × Option Provider
unfolding verify_provider_access_code upgrade_hash
check_access_row platform salt code none s = (s, none)
check_access_row platform salt code (some (c, p)) s =
    if verify_provider_access_code platform.scrypt platform.sha256 code c.access_code_hash
    then (record s { credentials = upgrade_hash platform salt code c s.credentials }, some p)
    else (s, none)

unfoldable pub find_provider_by_access_code :
    Platform → List ℕ → Text → ProviderAuth → ProviderAuth × Option Provider
unfolding check_access_row find_access_row provider_access_code_lookup_id
find_provider_by_access_code platform salt code s =
    check_access_row platform salt code
      (find_access_row (provider_access_code_lookup_id platform.sha256 code) s.credentials
        s.db.tables)
      s

abbrev pub is_session_with : Text → ProviderSession → Bool
is_session_with hash x = text_eq x.token_hash hash

-- INSERT … SELECT from the verified providers; a token that is there violates the primary key.
unfoldable pub create_provider_session :
    Platform → ℕ → ℕ → Text → ProviderAuth → Outcome Error ProviderAuth
unfolding find_verified_provider
create_provider_session platform now pid token s = do
  provider ← or_fail (find_verified_provider pid s.db.tables) verified_provider_not_found
  guard (not (any (is_session_with (hash_token platform token)) s.provider_sessions))
      unique_violation
  ok (record s {
    provider_sessions =
        s.provider_sessions
        ++ (record {
          token_hash = hash_token platform token;
          provider_id = pid;
          expires_at = now + 30 * day_milliseconds;
        }
            ∷ []);
  })

unfoldable pub revoke_provider_session : Platform → Text → ProviderAuth → ProviderAuth
revoke_provider_session platform token s = record s {
  provider_sessions =
      delete_where (is_session_with (hash_token platform token)) s.provider_sessions;
}

abbrev pub is_live_session : Text → ℕ → ProviderSession → Bool
is_live_session hash now x = is_session_with hash x && ltb now x.expires_at

unfoldable pub provider_of : Tables → Option ProviderSession → Option Provider
unfolding find_verified_provider
provider_of t none = none
provider_of t (some x) = find_verified_provider x.provider_id t

unfoldable pub find_provider_by_session : Platform → ℕ → Text → ProviderAuth → Option Provider
unfolding provider_of
find_provider_by_session platform now token s =
    provider_of s.db.tables
      (find_first (is_live_session (hash_token platform token) now) s.provider_sessions)
