-- ===== src/Ids/Examples.antt =====
-- Identifiers of one row.
use moeen.Base.{◌≡◌, arith, codes, none, pos, refl, some}
use moeen.Ids.Public.{
  customer_public_id, quote_public_id, request_database_id_or_undefined, staff_public_id,
  ticket_public_id, to_customer_database_id, to_quote_database_id, to_request_public_id,
  to_staff_database_id, to_support_ticket_database_id,
}
use moeen.Ids.RoundTrip.{public_ids-read}

request_id_printed : to_request_public_id 42 ≡ codes "MOE-1042"
unfolding to_request_public_id
request_id_printed = refl

-- A leading zero, and an identifier at the offset.
refused :
    (request_database_id_or_undefined (codes "MOE-01042") ≡ none)
    × (request_database_id_or_undefined (codes "MOE-1000") ≡ none)
unfolding request_database_id_or_undefined
refused = (refl, refl)

public_ids-read_example :
    (request_database_id_or_undefined (to_request_public_id 42) ≡ some 42)
    × (to_customer_database_id (customer_public_id 42) ≡ some (pos 42))
    × (to_quote_database_id (quote_public_id 42) ≡ some 42)
    × (to_support_ticket_database_id (ticket_public_id 42) ≡ some (pos 42))
    × (to_staff_database_id (staff_public_id 42) ≡ some (pos 42))
public_ids-read_example = public_ids-read 42 (omega arith) (omega arith)
