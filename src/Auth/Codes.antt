-- ===== src/Auth/Codes.antt =====
-- What setProviderAccessCode does: the new code signs its provider in, and the sessions of the
-- provider are gone.
use moeen.Base.{
  ◌==◌, ◌∙◌, ◌∷◌, ◌≡◌, ◌≢◌, ==_iff, >>=-eq-ok, Bool, Bool-cases, List, Option, Text, [], any, arith,
  codes, delete_where, false, find_first, find_first-holds, guard-eq-ok, inl, inr, none, not, ok,
  or_fail-eq-ok, refl, some, text_eq_refl, ℕ,
}
use moeen.Store.{AuditSpec, AuditState, Provider, Tables, find_provider, insert_staff_audit_event}
use moeen.Auth.Credentials.{
  IsDerivation, hash_password, provider_access_code_lookup_id, verify_legacy,
  verify_provider_access_code,
}
use moeen.Auth.Platform.{Platform, hash_token}
use moeen.Auth.Providers.{
  AccessCredential, ProviderAuth, ProviderSession, check_access_row, clashes, find_access_row,
  find_provider_by_access_code, find_provider_by_session, find_verified_provider, is_credential_of,
  is_live_session, is_verified_provider, provider_of, set_provider_access_code, upgrade_hash,
  upsert_credential,
}
use moeen.Auth.Verification.{IsSalt, accepts-hash_password, is_legacy-hash_password}

upsert_credential-found :
    (pid : ℕ) (lookup hash : Text) (cs : List AccessCredential) (t : Tables) (p : Provider)
    → any (clashes pid lookup hash) cs ≡ false
    → find_verified_provider pid t ≡ some p
    → (c : AccessCredential) × (find_access_row lookup (upsert_credential pid lookup hash cs) t
        ≡ some (c, p))
      × (c.access_code_hash ≡ hash)
unfolding upsert_credential find_access_row
upsert_credential-found pid lookup hash [] t p h found = (
  record { provider_id = pid; access_code_hash = hash; lookup_id = lookup },
  rw (text_eq_refl lookup, found) refl,
  refl,
)
upsert_credential-found pid lookup hash (c ∷ cs) t p h found =
    elim (Bool-cases (is_credential_of pid c)) [
      | inl mine ↦
          let same : c.provider_id ≡ pid = (==_iff _ _).0 mine in
          (
            record c { access_code_hash = hash; lookup_id = lookup },
            ground (arith, mine, text_eq_refl lookup, found),
            refl,
          )
      | inr other ↦
          let (row, at_row, hashed) =
            upsert_credential-found pid lookup hash cs t p (ground (arith, h)) found in
          (row, ground (arith, other, at_row), hashed)
    ]

find_first-deleted :
    (p q : ProviderSession → Bool) (sessions : List ProviderSession) (x : ProviderSession)
    → find_first q (delete_where p sessions) ≡ some x
    → p x ≡ false
find_first-deleted p q [] x h = cc
find_first-deleted p q (s ∷ sessions) x h = elim (Bool-cases (p s)) [
  | inl gone ↦ find_first-deleted p q sessions x (rw gone at h)
  | inr retained ↦ elim (Bool-cases (q s)) [
    | inl here ↦ ground (arith, retained, here, h)
    | inr there ↦ find_first-deleted p q sessions x (ground (arith, retained, there, h))
  ]
]

provider_of-key :
    (t : Tables) (found : Option ProviderSession) (p : Provider)
    → provider_of t found ≡ some p
    → (x : ProviderSession) × (found ≡ some x) × (p.id ≡ x.provider_id)
unfolding provider_of find_verified_provider
provider_of-key t none p h = cc
provider_of-key t (some x) p h =
    (x, refl, ground (arith, find_first-holds (is_verified_provider x.provider_id) t.providers p h))

-- What a committed change of an access code found and left.
set_provider_access_code-eq-ok :
    (platform : Platform) (salt : List ℕ) (pid : ℕ) (code : Text) (audit : Option AuditSpec)
    (s t : ProviderAuth)
    → set_provider_access_code platform salt pid code audit s ≡ ok t
    → let hash = hash_password platform.scrypt salt code in
      let lookup = provider_access_code_lookup_id platform.sha256 code in
      (any (clashes pid lookup hash) s.credentials ≡ false)
      × (t.credentials ≡ upsert_credential pid lookup hash s.credentials)
      × (t.provider_sessions
          ≡ delete_where (λ (x : ProviderSession). x.provider_id == pid) s.provider_sessions)
      × (t.db.tables ≡ s.db.tables)
unfolding set_provider_access_code
set_provider_access_code-eq-ok platform salt pid code audit s t h =
    let hash = hash_password platform.scrypt salt code in
    let lookup = provider_access_code_lookup_id platform.sha256 code in
    let (provider, found, a) = or_fail-eq-ok (find_provider pid s.db.tables) _ _ h in
    let (free, b) = guard-eq-ok (not (any (clashes pid lookup hash) s.credentials)) _ _ a in
    let (journal, audited, c) =
      >>=-eq-ok
        (insert_staff_audit_event audit none (some AuditState.access_code_state) s.db.journal) _
        b in
    (ground (arith, free), ground (arith, c), ground (arith, c), ground (arith, c))

pub check_access_row-fresh :
    (platform : Platform) (salt other : List ℕ) (code : Text) (c : AccessCredential) (p : Provider)
    (s : ProviderAuth)
    → IsDerivation platform.scrypt
    → IsSalt salt
    → c.access_code_hash ≡ hash_password platform.scrypt salt code
    → check_access_row platform other code (some (c, p)) s ≡ (s, some p)
unfolding check_access_row verify_provider_access_code upgrade_hash
check_access_row-fresh platform salt other code c p s d i e =
    let stored = hash_password platform.scrypt salt code in
    let verified =
      accepts-hash_password platform.scrypt salt code code
        (verify_legacy platform.sha256 code stored) d i
      ∙ text_eq_refl _ in
    let modern = is_legacy-hash_password platform.scrypt salt code in rw (e, verified, modern) refl

-- Once an access code is set it signs in its provider, if that one is verified, and no session from
-- before names the provider any more.
pub set_provider_access_code-signs_in :
    (platform : Platform) (salt other : List ℕ) (pid later : ℕ) (code token : Text)
    (audit : Option AuditSpec) (s t : ProviderAuth) (p : Provider)
    → IsDerivation platform.scrypt
    → IsSalt salt
    → set_provider_access_code platform salt pid code audit s ≡ ok t
    → find_verified_provider pid s.db.tables ≡ some p
    → (find_provider_by_access_code platform other code t ≡ (t, some p))
      × ((x : Provider) → find_provider_by_session platform later token t ≡ some x → x.id ≢ pid)
unfolding find_provider_by_access_code find_provider_by_session
set_provider_access_code-signs_in platform salt other pid later code token audit s t p d i h found =
    let hash = hash_password platform.scrypt salt code in
    let lookup = provider_access_code_lookup_id platform.sha256 code in
    let (free, codes, sessions, tables) =
      set_provider_access_code-eq-ok platform salt pid code audit s t h in
    let (c, at_row, hashed) =
      upsert_credential-found pid lookup hash s.credentials s.db.tables p free found in
    let row : find_access_row lookup t.credentials t.db.tables ≡ some (c, p) =
      rw (codes, tables) at_row in
    (
      rw row (check_access_row-fresh platform salt other code c p t d i hashed),
      λ x named.
          let (session, live, key) =
            provider_of-key t.db.tables
              (find_first (is_live_session (hash_token platform token) later) t.provider_sessions) x
              named in
          let gone =
            find_first-deleted (λ (y : ProviderSession). y.provider_id == pid)
              (is_live_session (hash_token platform token) later) s.provider_sessions session
              (rw (← sessions) live) in
          ground (arith, gone, key),
    )
