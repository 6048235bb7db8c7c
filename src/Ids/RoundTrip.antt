-- ===== src/Ids/RoundTrip.antt =====
-- Printed identifiers are read back.
use moeen.Base.{
  ◌++◌, ◌+◌, ◌<◌, ◌∙◌, ◌∷◌, ◌≡◌, ◌≤◌, ==_refl, Text, [], ap, arith, codes, false, is_empty, pos,
  refl, some, ℕ,
}
use moeen.Ids.Decimal.{
  decimal, decimal-all, decimal-length, decimal-starts, digits-nonempty, read_digits-decimal,
}
use moeen.Ids.Public.{
  after_prefix, all_digits, customer_public_id, less_thousand, maximum_safe_integer,
  quote_public_id, request_database_id_or_undefined, request_number, staff_public_id,
  ticket_public_id, to_customer_database_id, to_quote_database_id, to_request_public_id,
  to_staff_database_id, to_support_ticket_database_id,
}

pub after_prefix-append : (prefix rest : Text) → after_prefix prefix (prefix ++ rest) ≡ some rest
unfolding after_prefix
after_prefix-append [] rest = refl
after_prefix-append (p ∷ ps) rest = rw (==_refl p) (after_prefix-append ps rest)

pub decimal-nonempty : (n : ℕ) → is_empty (decimal n) ≡ false
unfolding decimal
decimal-nonempty n = digits-nonempty n n

pub all_digits-decimal : (n : ℕ) → all_digits (some (decimal n)) ≡ some n
unfolding all_digits
all_digits-decimal n = rw (decimal-nonempty n, decimal-all n, read_digits-decimal n)

less_thousand-add : (n : ℕ) → less_thousand (some (1000 + n)) ≡ some (pos n)
less_thousand-add n = ground arith

request_number-decimal :
    (n : ℕ)
    → 0 < n
    → 1000 + n ≤ maximum_safe_integer
    → request_number (some (decimal (1000 + n))) ≡ some n
unfolding request_number
request_number-decimal n p safe = ground (
  arith,
  decimal-starts (1000 + n),
  decimal-all (1000 + n),
  decimal-length (1000 + n) 15 (omega arith),
  read_digits-decimal (1000 + n),
)

-- The public identifier of every row is read back as that row's number: of a request, where its
-- number is positive and the identifier is a safe integer, and of a customer, a quote, a support
-- ticket and a staff member.
pub public_ids-read :
    (n : ℕ)
    → 0 < n
    → 1000 + n ≤ maximum_safe_integer
    → (request_database_id_or_undefined (to_request_public_id n) ≡ some n)
      × (to_customer_database_id (customer_public_id n) ≡ some (pos n))
      × (to_quote_database_id (quote_public_id n) ≡ some n)
      × (to_support_ticket_database_id (ticket_public_id n) ≡ some (pos n))
      × (to_staff_database_id (staff_public_id n) ≡ some (pos n))
unfolding request_database_id_or_undefined to_request_public_id to_customer_database_id
    customer_public_id to_quote_database_id quote_public_id to_support_ticket_database_id
    ticket_public_id to_staff_database_id staff_public_id
public_ids-read n p safe =
    let offset = ap less_thousand (all_digits-decimal (1000 + n)) ∙ less_thousand-add n in
    (
      ap request_number (after_prefix-append (codes "MOE-") (decimal (1000 + n)))
          ∙ request_number-decimal n p safe,
      ap (λ rest. less_thousand (all_digits rest))
            (after_prefix-append (codes "CUS-") (decimal (1000 + n)))
          ∙ offset,
      ap all_digits (after_prefix-append (codes "QTE-") (decimal n)) ∙ all_digits-decimal n,
      ap (λ rest. less_thousand (all_digits rest))
            (after_prefix-append (codes "SUP-") (decimal (1000 + n)))
          ∙ offset,
      ap (λ rest. less_thousand (all_digits rest))
            (after_prefix-append (codes "STF-") (decimal (1000 + n)))
          ∙ offset,
    )
