-- ===== src/Support/Tickets.antt =====
-- createSupportTicket and updateSupportTicketStatus of apps/api/src/service-request.repository.ts.
-- The comment of a ticket is a text key.
use moeen.Base.{
  ◌&&◌, ◌++◌, ◌==◌, ◌>>=◌, ◌∷◌, Bool, List, Option, Outcome, [], find_first, holds, ok, or_fail,
  some, suc, update_first, ℕ,
}
use moeen.Store.{
  AuditSpec, AuditState, Db, Error, ServiceRequest, SupportCategory, SupportTicketStatus,
  customer_request_not_found, insert_staff_audit_event, ticket_not_found,
}

pub record SupportTicket : Type 0 where
  pub id : ℕ
  pub request_id : ℕ
  pub customer_id : ℕ
  pub category : SupportCategory
  pub comment : ℕ
  pub status : SupportTicketStatus

pub record Desk : Type 0 where
  pub db : Db
  pub tickets : List SupportTicket
  pub next_ticket_id : ℕ

-- INSERT … SELECT from the request of the customer.
abbrev pub is_request_of : ℕ → ℕ → ServiceRequest → Bool
is_request_of rid cid r = r.id == rid && holds r.customer_id cid

unfoldable pub create_support_ticket :
    ℕ → ℕ → SupportCategory → ℕ → Desk → Outcome Error (Desk × SupportTicket)
create_support_ticket rid cid category comment s = do
  request ←
      or_fail (find_first (is_request_of rid cid) s.db.tables.requests) customer_request_not_found
  let ticket : SupportTicket = record {
    id = s.next_ticket_id;
    request_id = rid;
    customer_id = cid;
    category = category;
    comment = comment;
    status = SupportTicketStatus.open_ticket;
  }
  ok (
    record s { tickets = s.tickets ++ (ticket ∷ []); next_ticket_id = suc s.next_ticket_id },
    ticket,
  )

abbrev pub is_ticket : ℕ → SupportTicket → Bool
is_ticket id t = t.id == id

-- The lock on the row, the update, and the audit of the old and the new status.
unfoldable pub update_support_ticket_status :
    ℕ → SupportTicketStatus → Option AuditSpec → Desk → Outcome Error (Desk × SupportTicket)
unfolding insert_staff_audit_event
update_support_ticket_status id status audit s = do
  current ← or_fail (find_first (is_ticket id) s.tickets) ticket_not_found
  journal ←
      insert_staff_audit_event audit (some (AuditState.ticket_state current.status))
        (some (AuditState.ticket_state status)) s.db.journal
  ok (
    record s {
      db = record { tables = s.db.tables; journal = journal };
      tickets =
          update_first (is_ticket id) (λ (t : SupportTicket). record t { status = status })
            s.tickets;
    },
    record current { status = status },
  )
