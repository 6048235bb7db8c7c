-- ===== src/Market/Marketplace.antt =====
-- inviteProvidersToRequest, withdrawProviderQuote and closeProviderOpportunity.
use moeen.Base.{
  ◌&&◌, ◌==◌, ◌>>=◌, ◌>>◌, ◌||◌, Bool, List, Option, [], any, false, find_first, guard, holds,
  if◌then◌else◌, is_empty, is_some, none, not, ok, or_fail, select, some, true, update_by,
  update_where, ℕ,
}
use moeen.Store.{
  AuditSpec, AuditState, Db, EventType, Opportunity, OpportunityStatus, Provider, Quote,
  QuoteStatus, RequestStatus, Tables, Tx, active_quote_exists, empty_invitation, find_quote,
  find_request, insert_event, insert_staff_audit_event, is_open_opportunity, is_proposed,
  not_open_for_invitations, pending_dispatch, provider_quote_not_found, request_not_found,
  status_eq,
}
use moeen.Market.Propose.{is_active_quote_of}
use moeen.Outbox.Writer.{Config}
use moeen.Requests.Opportunities.{close_opportunity, invite_all, is_eligible, is_opportunity_of}

-- `if (audit && …)`.
abbrev pub audit_if : Bool → Option AuditSpec → Option AuditSpec
audit_if true audit = audit
audit_if false audit = none

abbrev pub withdraw_row : ℕ → Quote → Quote
withdraw_row now q = record q { status = QuoteStatus.withdrawn; decided_at = some now }

-- UPDATE service_quotes SET status = 'withdrawn', and the provider's opportunity with it.
unfoldable pub withdraw_tables : ℕ → Quote → ℕ → Tables → Tables
withdraw_tables now q pid t = record t {
  quotes = update_by (λ (x : Quote). x.id) q.id (withdraw_row now) t.quotes;
  opportunities =
      update_where (is_opportunity_of q.request_id pid)
        (λ o. record o { status = OpportunityStatus.withdrawn }) t.opportunities;
}

abbrev pub is_open_for_provider : ℕ → ℕ → Opportunity → Bool
is_open_for_provider rid pid o = is_opportunity_of rid pid o && is_open_opportunity o.status

module _ (cfg : Config) (now : ℕ) where
  -- The result lists the providers whose opportunity is new. A list of ids names each provider
  -- once, since the selection runs over the providers.
  unfoldable pub invite_providers_to_request : ℕ → List ℕ → Option AuditSpec → Db → Tx (List ℕ)
  unfolding invite_all insert_staff_audit_event
  invite_providers_to_request rid provider_ids audit db = do
    guard (not (is_empty provider_ids)) empty_invitation
    request ← or_fail (find_request rid db.tables) not_open_for_invitations
    guard
        (not (
          status_eq request.status RequestStatus.completed
          || status_eq request.status RequestStatus.cancelled))
        not_open_for_invitations
    guard (not (is_some (find_first (is_active_quote_of rid) db.quotes))) active_quote_exists
    let eligible =
        select
          (λ (p : Provider). any (λ i. i == p.id) provider_ids && is_eligible request.service_id p)
          db.providers
    let (opportunities, invited_journal, inserted) =
        invite_all cfg now rid request.status eligible (db.opportunities, db.journal, [])
    journal ←
        insert_staff_audit_event (audit_if (not (is_empty inserted)) audit) none
          (some (AuditState.invited_state inserted)) invited_journal
    ok (
      record { tables = record db.tables { opportunities = opportunities }; journal = journal },
      inserted,
    )

  unfoldable pub withdraw_provider_quote : ℕ → ℕ → Db → Tx (Unit {0})
  unfolding withdraw_tables insert_event
  withdraw_provider_quote qid pid db = do
    quote ← or_fail (find_quote qid db.tables) provider_quote_not_found
    guard (holds quote.provider_id pid && is_proposed quote.status) provider_quote_not_found
    ok (
      record {
        tables = withdraw_tables now quote pid db.tables;
        journal =
            insert_event quote.request_id EventType.provider_quote_withdrawn pending_dispatch
              db.journal;
      },
      tt,
    )

  unfoldable pub close_provider_opportunity : ℕ → ℕ → Option AuditSpec → Db → Tx Bool
  unfolding insert_event insert_staff_audit_event
  close_provider_opportunity rid pid audit db = do
    request ← or_fail (find_request rid db.tables) request_not_found
    let closed = any (is_open_for_provider rid pid) db.opportunities
    journal ←
        insert_staff_audit_event (audit_if closed audit) none
          (some (AuditState.closed_state pid closed))
          (if closed
            then insert_event rid EventType.opportunity_closed request.status db.journal
            else db.journal)
    ok (
      record {
        tables = record db.tables {
          opportunities =
              update_where (is_open_for_provider rid pid) close_opportunity db.opportunities;
        };
        journal = journal;
      },
      closed,
    )
