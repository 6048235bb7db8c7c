-- ===== src/Support/Examples.antt =====
-- A ticket that a dispatcher takes up.
use moeen.Base.{
  ◌++◌, ◌==◌, ◌∷◌, ◌≡◌, Outcome, [], any, committed, false, find_first, ok, refl, some, true,
}
use moeen.Store.{AuditSpec, AuditState, Error, SupportCategory, SupportTicketStatus}
use moeen.Auth.CodeExamples.{desk}
use moeen.Support.Handling.{update_support_ticket_status-audited}
use moeen.Support.Tickets.{Desk, SupportTicket, is_ticket, update_support_ticket_status}
use moeen.System.Examples.{}

abbrev ticket : SupportTicketStatus → SupportTicket
ticket status = record {
  id = 1;
  request_id = 1;
  customer_id = 5;
  category = SupportCategory.price;
  comment = 8;
  status = status;
}

abbrev counter : Desk
counter = record {
  db = desk;
  tickets = ticket SupportTicketStatus.open_ticket ∷ [];
  next_ticket_id = 2;
}

abbrev by : AuditSpec
by = record { staff_id = 3; action = "support_ticket_updated"; subject_id = 1 }

abbrev taken : Outcome Error (Desk × SupportTicket)
taken = update_support_ticket_status 1 SupportTicketStatus.ticket_in_progress (some by) counter

abbrev after : Desk
after = committed counter taken

taken_ok : taken ≡ ok (after, ticket SupportTicketStatus.ticket_in_progress)
unfolding update_support_ticket_status
taken_ok = refl

different : (1 == 2) ≡ false
different = refl

update_support_ticket_status-audited_example :
    (any (λ staff. staff == 3) counter.db.journal.staff_users ≡ true)
    × (find_first (is_ticket 1) after.tickets
        ≡ some (ticket SupportTicketStatus.ticket_in_progress))
    × ((ticket SupportTicketStatus.ticket_in_progress).status
        ≡ SupportTicketStatus.ticket_in_progress)
    × (find_first (is_ticket 2) after.tickets ≡ find_first (is_ticket 2) counter.tickets)
    × ((old : SupportTicket) × (find_first (is_ticket 1) counter.tickets ≡ some old)
        × (after.db.journal.audit
            ≡ counter.db.journal.audit
              ++ (record {
                staff_user_id = 3;
                action = "support_ticket_updated";
                subject_id = 1;
                old_state = some (AuditState.ticket_state old.status);
                new_state = some (AuditState.ticket_state SupportTicketStatus.ticket_in_progress);
              }
                  ∷ [])))
update_support_ticket_status-audited_example =
    update_support_ticket_status-audited 1 2 SupportTicketStatus.ticket_in_progress by counter after
      (ticket SupportTicketStatus.ticket_in_progress) different taken_ok
