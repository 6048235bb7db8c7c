-- ===== src/Service/Invitations.antt =====
-- normalizeProviderInvitationIds and inviteProvidersToRequest of apps/api/src/app.service.ts.
use moeen.Base.{
  ◌>>=◌, ◌>>◌, ◌∷◌, List, Option, Outcome, Text, [], delete_where, err, guard, is_empty, not, ok,
  text_eq, trim, ℕ,
}
use moeen.Store.{AuditSpec, Db}
use moeen.Json.{Items, Json}
use moeen.Market.Marketplace.{invite_providers_to_request}
use moeen.Outbox.Writer.{Config}
use moeen.Service.Accounts.{ServiceError, request_database_id, stored}

-- `[...new Set(texts)]`: the first occurrence of each.
unfoldable pub distinct_texts : List Text → List Text
unfolding text_eq
distinct_texts [] = []
distinct_texts (t ∷ ts) = t ∷ delete_where (text_eq t) (distinct_texts ts)

-- The `map` of the body, which throws at the first value that is no text.
unfoldable pub trimmed_ids : Items → Outcome ServiceError (List Text)
unfolding trim
trimmed_ids Items.no_items = ok []
trimmed_ids (Items.item (Json.text t) rest) = do later ← trimmed_ids rest; ok (trim t ∷ later)
trimmed_ids (Items.item _ rest) = err ServiceError.invitations_not_ids

unfoldable pub normalize_provider_invitation_ids : Json → Outcome ServiceError (List Text)
unfolding trimmed_ids distinct_texts
normalize_provider_invitation_ids (Json.array items) = do
  normalized ← trimmed_ids items
  guard (not (is_empty (distinct_texts normalized))) ServiceError.invitations_empty
  ok (distinct_texts normalized)
normalize_provider_invitation_ids _ = err ServiceError.invitations_not_array

abbrev pub keys_of : (Text → ℕ) → List Text → List ℕ
keys_of key [] = []
keys_of key (t ∷ ts) = key t ∷ keys_of key ts

module _ (key : Text → ℕ) (cfg : Config) (now : ℕ) where
  unfoldable pub invite_providers :
      Text → Json → Option AuditSpec → Db → Outcome ServiceError (Db × List ℕ)
  unfolding normalize_provider_invitation_ids invite_providers_to_request
  invite_providers id provider_ids audit db = do
    ids ← normalize_provider_invitation_ids provider_ids
    rid ← request_database_id id
    stored (invite_providers_to_request cfg now rid (keys_of key ids) audit db)
