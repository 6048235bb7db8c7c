-- ===== src/Support/Handling.antt =====
-- What a change of a ticket by the staff leaves.
use moeen.Base.{
  ◌++◌, ◌==◌, ◌∙◌, ◌∷◌, ◌≡◌, >>=-eq-ok, Bool-cases, List, Option, [], any, ap, arith, false,
  find_first, inl, inr, ok, or_fail-eq-ok, refl, some, true, update_first, ℕ,
}
use moeen.Store.{AuditSpec, AuditState, Journal, SupportTicketStatus, insert_staff_audit_event}
use moeen.Support.Tickets.{Desk, SupportTicket, is_ticket, update_support_ticket_status}

insert_staff_audit_event-eq-ok :
    (spec : AuditSpec) (old new : Option AuditState) (j k : Journal)
    → insert_staff_audit_event (some spec) old new j ≡ ok k
    → (any (λ id. id == spec.staff_id) j.staff_users ≡ true)
      × (k.audit
          ≡ j.audit
            ++ (record {
              staff_user_id = spec.staff_id;
              action = spec.action;
              subject_id = spec.subject_id;
              old_state = old;
              new_state = new;
            }
                ∷ []))
unfolding insert_staff_audit_event
insert_staff_audit_event-eq-ok spec old new j k h =
    elim (Bool-cases (any (λ id. id == spec.staff_id) j.staff_users)) [
      | inl known ↦ (known, ground (arith, known, h))
      | inr unknown ↦ absurd (ground (arith, unknown, h))
    ]

found-update_status :
    (id : ℕ) (status : SupportTicketStatus) (tickets : List SupportTicket) (t : SupportTicket)
    → find_first (is_ticket id) tickets ≡ some t
    → find_first
        (is_ticket id)
        (update_first (is_ticket id) (λ (x : SupportTicket). record x { status = status }) tickets)
      ≡ some (record t { status = status })
found-update_status id status [] t h = cc
found-update_status id status (x ∷ tickets) t h =
    ground (arith, found-update_status id status tickets t)

other-update_status :
    (id other : ℕ) (status : SupportTicketStatus) (tickets : List SupportTicket)
    → (id == other) ≡ false
    → find_first
        (is_ticket other)
        (update_first (is_ticket id) (λ (x : SupportTicket). record x { status = status }) tickets)
      ≡ find_first (is_ticket other) tickets
other-update_status id other status [] h = refl
other-update_status id other status (x ∷ tickets) h =
    ground (arith, other-update_status id other status tickets)

-- A change of a ticket that commits with an audit is by a known staff member, gives the ticket the
-- new status and leaves every other ticket alone, and adds exactly one audit row: it has the status
-- that the ticket had and the one it got.
pub update_support_ticket_status-audited :
    (id other : ℕ) (status : SupportTicketStatus) (spec : AuditSpec) (s t : Desk)
    (ticket : SupportTicket)
    → (id == other) ≡ false
    → update_support_ticket_status id status (some spec) s ≡ ok (t, ticket)
    → (any (λ staff. staff == spec.staff_id) s.db.journal.staff_users ≡ true)
      × (find_first (is_ticket id) t.tickets ≡ some ticket)
      × (ticket.status ≡ status)
      × (find_first (is_ticket other) t.tickets ≡ find_first (is_ticket other) s.tickets)
      × ((old : SupportTicket) × (find_first (is_ticket id) s.tickets ≡ some old)
          × (t.db.journal.audit
              ≡ s.db.journal.audit
                ++ (record {
                  staff_user_id = spec.staff_id;
                  action = spec.action;
                  subject_id = spec.subject_id;
                  old_state = some (AuditState.ticket_state old.status);
                  new_state = some (AuditState.ticket_state status);
                }
                    ∷ [])))
unfolding update_support_ticket_status
update_support_ticket_status-audited id other status spec s t ticket apart h =
    let (current, found, a) = or_fail-eq-ok (find_first (is_ticket id) s.tickets) _ _ h in
    let (journal, audited, b) =
      >>=-eq-ok
        (insert_staff_audit_event (some spec) (some (AuditState.ticket_state current.status))
          (some (AuditState.ticket_state status)) s.db.journal)
        _ a in
    let (known, row) =
      insert_staff_audit_event-eq-ok spec (some (AuditState.ticket_state current.status))
        (some (AuditState.ticket_state status)) s.db.journal journal audited in
    let changed = found-update_status id status s.tickets current found in
    let left = other-update_status id other status s.tickets apart in
    let tickets : t.tickets
        ≡ update_first (is_ticket id) (λ (x : SupportTicket). record x { status = status })
            s.tickets =
      ground (arith, b) in
    let named : ticket ≡ record current { status = status } = ground (arith, b) in
    let logged : t.db.journal ≡ journal = ground (arith, b) in
    (
      known,
      rw (tickets, named) changed,
      ap (λ (x : SupportTicket). x.status) named,
      rw tickets left,
      (current, found, ap (λ (j : Journal). j.audit) logged ∙ row),
    )
