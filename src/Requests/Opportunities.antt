-- ===== src/Requests/Opportunities.antt =====
-- The opportunities that invite providers to a request: their creation on conflict-free keys, and
-- the statements that close the marketplace of a request once a provider is chosen.
use moeen.Base.{◌&&◌, ◌++◌, ◌==◌, ◌∷◌, Bool, List, [], any, if◌then◌else◌, is_some, some, ℕ}
use moeen.Store.{
  DedupeKey, EventType, Journal, NotificationType, Opportunity, OpportunityStatus, Provider, Quote,
  QuoteStatus, RequestStatus, insert_event, is_open_opportunity, is_proposed, is_verified,
}
use moeen.Outbox.Writer.{Config, enqueue_provider_notification}

-- `p.verification_status = 'verified' AND p.available AND service_id = ANY(p.specialties)`.
abbrev pub is_eligible : ℕ → Provider → Bool
is_eligible service p =
    is_verified p.verification_status && p.available && any (λ s. s == service) p.specialties

abbrev pub is_opportunity_of : ℕ → ℕ → Opportunity → Bool
is_opportunity_of rid pid o = o.request_id == rid && o.provider_id == pid

-- `status IN ('invited', 'quoted')` on the request's rows.
abbrev pub is_open_for : ℕ → Opportunity → Bool
is_open_for rid o = o.request_id == rid && is_open_opportunity o.status

abbrev pub close_opportunity : Opportunity → Opportunity
close_opportunity o = record o { status = OpportunityStatus.closed }

-- `provider_id IS NOT NULL AND status = 'proposed'` on the request's rows.
abbrev pub is_open_provider_quote : ℕ → Quote → Bool
is_open_provider_quote rid q =
    q.request_id == rid && (is_some q.provider_id && is_proposed q.status)

abbrev pub reject_quote : ℕ → Quote → Quote
reject_quote now q = record q { status = QuoteStatus.rejected; decided_at = some now }

module _ (cfg : Config) (now : ℕ) where
  -- One insertion ON CONFLICT (service_request_id, provider_id) DO NOTHING, with the event and the
  -- notification that only a new row produces.
  unfoldable pub invite :
      ℕ
      → RequestStatus
      → ℕ
      → List Opportunity × Journal × List ℕ
      → List Opportunity × Journal × List ℕ
  unfolding insert_event enqueue_provider_notification
  invite rid status pid (opportunities, journal, inserted) =
      if any (is_opportunity_of rid pid) opportunities
      then (opportunities, journal, inserted)
      else (
        opportunities
            ++ (record { request_id = rid; provider_id = pid; status = OpportunityStatus.invited }
                ∷ []),
        enqueue_provider_notification cfg now NotificationType.opportunity_invited rid pid
            (DedupeKey.opportunity_invited rid pid)
            (insert_event rid EventType.opportunity_invited status journal),
        inserted ++ (pid ∷ []),
      )

  unfoldable pub invite_all :
      ℕ
      → RequestStatus
      → List Provider
      → List Opportunity × Journal × List ℕ
      → List Opportunity × Journal × List ℕ
  unfolding invite
  invite_all rid status [] state = state
  invite_all rid status (p ∷ ps) state = invite_all rid status ps (invite rid status p.id state)

  -- P3 opportunity_closed to each provider whose opportunity was closed, the winner excepted.
  unfoldable pub notify_losers : ℕ → ℕ → List Opportunity → Journal → Journal
  unfolding enqueue_provider_notification
  notify_losers rid winner [] journal = journal
  notify_losers rid winner (o ∷ os) journal = notify_losers rid winner os (
      if o.provider_id == winner
      then journal
      else enqueue_provider_notification cfg now NotificationType.opportunity_closed rid
          o.provider_id (DedupeKey.opportunity_closed rid o.provider_id) journal)
