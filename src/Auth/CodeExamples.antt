-- ===== src/Auth/CodeExamples.antt =====
-- A provider with an access code on a small platform, and the theorems on it.
use moeen.Base.{◌∷◌, ◌≡◌, ◌≢◌, Outcome, [], err, ok, refl, some, text_eq, true}
use moeen.Store.{Db, Error, Provider, VerificationStatus}
use moeen.Auth.Codes.{set_provider_access_code-signs_in}
use moeen.Auth.Examples.{
  guess, salt_bytes, salt_bytes-IsSalt, secret, small, small_scrypt-IsDerivation, small_sha256,
}
use moeen.Auth.Hex.{from_hex, split_on, to_hex}
use moeen.Auth.Providers.{
  ProviderAuth, find_provider_by_access_code, find_provider_by_session, find_verified_provider,
  set_provider_access_code,
}
use moeen.System.Examples.{}

abbrev plumber : Provider
plumber = record {
  id = 7;
  specialties = 1 ∷ [];
  available = true;
  verification_status = VerificationStatus.verified;
}

abbrev pub desk : Db
desk = record {
  tables = record {
    providers = plumber ∷ [];
    requests = [];
    quotes = [];
    opportunities = [];
    payments = [];
    sessions = [];
    positions = [];
    samples = [];
    next_request_id = 1;
    next_quote_id = 1;
    next_payment_id = 1;
  };
  journal = record {
    events = [];
    outbox = [];
    audit = [];
    staff_users = 3 ∷ [];
    next_outbox_id = 1;
  };
}

-- An older row: a bare digest.
abbrev registered : ProviderAuth
registered = record {
  db = desk;
  credentials =
      record {
        provider_id = 7;
        access_code_hash = to_hex (small_sha256 secret);
        lookup_id = to_hex (small_sha256 secret);
      }
      ∷ [];
  provider_sessions =
      record { token_hash = to_hex (small_sha256 guess); provider_id = 7; expires_at = 90000 } ∷ [];
  login_failures = [];
}

abbrev rotated : Outcome Error ProviderAuth
rotated =
    set_provider_access_code small salt_bytes 7 guess
      (some (record { staff_id = 3; action = "provider_access_code_rotated"; subject_id = 7 }))
      registered

abbrev after : ProviderAuth
after = elim rotated [ ok t ↦ t | err e ↦ registered ]

rotated_ok : rotated ≡ ok after
unfolding set_provider_access_code to_hex text_eq
rotated_ok = refl

plumber_found : find_verified_provider 7 desk.tables ≡ some plumber
unfolding find_verified_provider
plumber_found = refl

set_provider_access_code-signs_in_example :
    (find_provider_by_access_code small salt_bytes guess after ≡ (after, some plumber))
    × ((x : Provider) → find_provider_by_session small 80000 guess after ≡ some x → x.id ≢ 7)
set_provider_access_code-signs_in_example =
    set_provider_access_code-signs_in small salt_bytes salt_bytes 7 80000 guess guess
      (some (record { staff_id = 3; action = "provider_access_code_rotated"; subject_id = 7 }))
      registered after plumber small_scrypt-IsDerivation salt_bytes-IsSalt rotated_ok plumber_found

abbrev upgraded : ProviderAuth
upgraded = (find_provider_by_access_code small salt_bytes secret registered).0

signed_in_once :
    find_provider_by_access_code small salt_bytes secret registered ≡ (upgraded, some plumber)
unfolding find_provider_by_access_code to_hex from_hex text_eq split_on
signed_in_once = refl
