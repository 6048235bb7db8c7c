-- ===== src/Auth/Upgrades.antt =====
-- The upgrade of older access code hashes in findProviderByAccessCode of
-- apps/api/src/service-request.repository.ts.
use moeen.Base.{
  ◌∙◌, ◌∷◌, ◌≡◌, ==_refl, Bool-cases, List, Option-cases, Text, [], arith, false, inl, inr, none,
  refl, some, sym, text_eq_refl, true, update_where, ℕ,
}
use moeen.Store.{Provider, Tables}
use moeen.Auth.Codes.{check_access_row-fresh}
use moeen.Auth.Credentials.{
  IsDerivation, hash_password, is_legacy_provider_access_code_hash, provider_access_code_lookup_id,
  verify_provider_access_code,
}
use moeen.Auth.Platform.{Platform}
use moeen.Auth.Providers.{
  AccessCredential, ProviderAuth, check_access_row, find_access_row, find_provider_by_access_code,
  is_same_hash, upgrade_hash,
}
use moeen.Auth.Verification.{IsSalt}

module _ (lookup : Text) (t : Tables) (p : Provider) (c : AccessCredential) (hash : Text) where
  -- The upgrade of the row that was found.
  find_access_row-update :
      (cs : List AccessCredential)
      → find_access_row lookup cs t ≡ some (c, p)
      → find_access_row lookup
          (update_where
            (is_same_hash c)
            (λ (x : AccessCredential). record x { access_code_hash = hash })
            cs)
          t
        ≡ some (record c { access_code_hash = hash }, p)
  unfolding find_access_row
  find_access_row-update [] h = cc
  find_access_row-update (x ∷ cs) h =
      ground
        (arith, find_access_row-update cs, text_eq_refl c.access_code_hash, ==_refl c.provider_id)

check_access_row-eq_some :
    (platform : Platform) (salt : List ℕ) (code : Text) (c : AccessCredential) (p x : Provider)
    (s t : ProviderAuth)
    → check_access_row platform salt code (some (c, p)) s ≡ (t, some x)
    → (verify_provider_access_code platform.scrypt platform.sha256 code c.access_code_hash ≡ true)
      × (t ≡ record s { credentials = upgrade_hash platform salt code c s.credentials })
      × (x ≡ p)
unfolding check_access_row
check_access_row-eq_some platform salt code c p x s t h =
    elim (Bool-cases
      (verify_provider_access_code platform.scrypt platform.sha256 code c.access_code_hash)) [
        | inl verified ↦ (verified, ground (arith, verified, h), ground (arith, verified, h))
        | inr refused ↦ absurd (ground (arith, refused, h))
      ]

check_access_row-modern :
    (platform : Platform) (other : List ℕ) (code : Text) (c : AccessCredential) (p : Provider)
    (s : ProviderAuth)
    → is_legacy_provider_access_code_hash c.access_code_hash ≡ false
    → verify_provider_access_code platform.scrypt platform.sha256 code c.access_code_hash ≡ true
    → check_access_row platform other code (some (c, p)) s ≡ (s, some p)
unfolding check_access_row upgrade_hash
check_access_row-modern platform other code c p s modern verified = rw (verified, modern) refl

find_provider_by_access_code-missing :
    (platform : Platform) (salt : List ℕ) (code : Text) (p : Provider) (s t : ProviderAuth)
    → find_access_row
        (provider_access_code_lookup_id platform.sha256 code)
        s.credentials
        s.db.tables
      ≡ none
    → find_provider_by_access_code platform salt code s ≡ (t, some p)
    → ⊥
unfolding find_provider_by_access_code check_access_row
find_provider_by_access_code-missing platform salt code p s t missing h = ground (arith, missing, h)

find_provider_by_access_code-row :
    (platform : Platform) (salt : List ℕ) (code : Text) (c : AccessCredential) (p : Provider)
    (s : ProviderAuth)
    → find_access_row
        (provider_access_code_lookup_id platform.sha256 code)
        s.credentials
        s.db.tables
      ≡ some (c, p)
    → find_provider_by_access_code platform salt code s
      ≡ check_access_row platform salt code (some (c, p)) s
unfolding find_provider_by_access_code
find_provider_by_access_code-row platform salt code c p s row = rw row refl

check_access_row-again :
    (platform : Platform) (salt other : List ℕ) (code : Text) (c : AccessCredential) (p : Provider)
    (s : ProviderAuth)
    → IsDerivation platform.scrypt
    → IsSalt salt
    → find_access_row
        (provider_access_code_lookup_id platform.sha256 code)
        s.credentials
        s.db.tables
      ≡ some (c, p)
    → verify_provider_access_code platform.scrypt platform.sha256 code c.access_code_hash ≡ true
    → let t = record s { credentials = upgrade_hash platform salt code c s.credentials } in
      find_provider_by_access_code platform other code t ≡ (t, some p)
unfolding upgrade_hash find_provider_by_access_code
check_access_row-again platform salt other code c p s d i row verified =
    let hash = hash_password platform.scrypt salt code in
    let lookup = provider_access_code_lookup_id platform.sha256 code in
    elim (Bool-cases (is_legacy_provider_access_code_hash c.access_code_hash)) [
      | inl legacy ↦
          rw (legacy, find_access_row-update lookup s.db.tables p c hash s.credentials row)
            (check_access_row-fresh platform salt other code (record c { access_code_hash = hash })
              p _ d i refl)
      | inr modern ↦
          rw (modern, row) (check_access_row-modern platform other code c p s modern verified)
    ]

-- An access code that signed a provider in signs the same provider in again, whether or not its
-- stored hash was of the older kind and has been upgraded by the first sign-in.
pub find_provider_by_access_code-again :
    (platform : Platform) (salt other : List ℕ) (code : Text) (p : Provider) (s t : ProviderAuth)
    → IsDerivation platform.scrypt
    → IsSalt salt
    → find_provider_by_access_code platform salt code s ≡ (t, some p)
    → find_provider_by_access_code platform other code t ≡ (t, some p)
find_provider_by_access_code-again platform salt other code p s t d i h =
    let lookup = provider_access_code_lookup_id platform.sha256 code in
    elim (Option-cases (find_access_row lookup s.credentials s.db.tables)) [
      | inl missing ↦
          absurd (find_provider_by_access_code-missing platform salt code p s t missing h)
      | inr ((c, x), row) ↦
          let checked = find_provider_by_access_code-row platform salt code c x s row in
          let (verified, after, same) =
            check_access_row-eq_some platform salt code c x p s t (sym checked ∙ h) in
          rw (after, same) (check_access_row-again platform salt other code c x s d i row verified)
    ]
