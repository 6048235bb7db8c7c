-- ===== src/Ids/Public.antt =====
-- The identifiers themselves: `MOE-` for requests, `CUS-` for customers, `QTE-` for quotes, `SUP-`
-- for support tickets, `STF-` for the staff.
use moeen.Base.{
  ◌&&◌, ◌++◌, ◌+◌, ◌-◌, ◌==◌, ◌∷◌, Option, Text, [], all, codes, if◌then◌else◌, is_empty, leb,
  length, negsuc, none, not, pos, some, ℕ, ℤ,
}
use moeen.Ids.Decimal.{decimal, is_digit, read_digits, starts_positive}

-- The rest of a text after a prefix.
unfoldable pub after_prefix : Text → Text → Option Text
after_prefix [] cs = some cs
after_prefix (p ∷ ps) [] = none
after_prefix (p ∷ ps) (c ∷ cs) = let rest = after_prefix ps cs in if p == c then rest else none

-- `\d+` up to the end of the text.
unfoldable pub all_digits : Option Text → Option ℕ
unfolding read_digits
all_digits none = none
all_digits (some cs) =
    if not (is_empty cs) && all is_digit cs then some (read_digits 0 cs) else none

-- `Number(…) - 1000`.
abbrev pub less_thousand : Option ℕ → Option ℤ
less_thousand none = none
less_thousand (some n) = some (if leb 1000 n then pos (n - 1000) else negsuc (999 - n))

abbrev pub maximum_safe_integer : ℕ
maximum_safe_integer = 9007199254740991

-- `[1-9]\d{0,15}` up to the end, a safe integer, and beyond the offset.
unfoldable pub request_number : Option Text → Option ℕ
unfolding read_digits
request_number none = none
request_number (some cs) =
    let n = read_digits 0 cs in
    if starts_positive cs
      && (all is_digit cs
          && (leb (length cs) 16 && (leb n maximum_safe_integer && not (leb n 1000))))
    then some (n - 1000)
    else none

unfoldable pub to_request_public_id : ℕ → Text
unfolding decimal
to_request_public_id id = codes "MOE-" ++ decimal (1000 + id)

-- requestDatabaseIdOrUndefined; toRequestDatabaseId throws where it is undefined.
unfoldable pub request_database_id_or_undefined : Text → Option ℕ
unfolding after_prefix request_number
request_database_id_or_undefined text = request_number (after_prefix (codes "MOE-") text)

unfoldable pub customer_public_id : ℕ → Text
unfolding decimal
customer_public_id id = codes "CUS-" ++ decimal (1000 + id)

-- The four functions below throw where the result is none.
unfoldable pub to_customer_database_id : Text → Option ℤ
unfolding after_prefix all_digits
to_customer_database_id text = less_thousand (all_digits (after_prefix (codes "CUS-") text))

unfoldable pub quote_public_id : ℕ → Text
unfolding decimal
quote_public_id id = codes "QTE-" ++ decimal id

unfoldable pub to_quote_database_id : Text → Option ℕ
unfolding after_prefix all_digits
to_quote_database_id text = all_digits (after_prefix (codes "QTE-") text)

unfoldable pub ticket_public_id : ℕ → Text
unfolding decimal
ticket_public_id id = codes "SUP-" ++ decimal (1000 + id)

unfoldable pub to_support_ticket_database_id : Text → Option ℤ
unfolding after_prefix all_digits
to_support_ticket_database_id text = less_thousand (all_digits (after_prefix (codes "SUP-") text))

unfoldable pub staff_public_id : ℕ → Text
unfolding decimal
staff_public_id id = codes "STF-" ++ decimal (1000 + id)

unfoldable pub to_staff_database_id : Text → Option ℤ
unfolding after_prefix all_digits
to_staff_database_id text = less_thousand (all_digits (after_prefix (codes "STF-") text))
