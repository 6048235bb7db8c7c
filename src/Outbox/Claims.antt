-- ===== src/Outbox/Claims.antt =====
-- What a worker's claim takes, against the due rows of the table.
use moeen.Base.{
  ◌&&◌, ◌+◌, ◌-◌, ◌∷◌, ◌≡◌, Bool, Bool-cases, List, Option-cases, [], arith, count, find_first,
  find_first-holds, if◌then◌else◌, inl, inr, none, refl, some, suc, total-update_first,
  update_first, zero, ℕ,
}
use moeen.Store.{Notification, OutboxStatus}
use moeen.Outbox.Worker.{claim, claim_row, due_at, is_due}
use moeen.Tracking.Retention.{ages-oldest-none, has_age, oldest}

abbrev pub due_count : ℕ → List Notification → ℕ
due_count now = count (is_due now)

due-claim_row : (now worker : ℕ) (n : Notification) → due_at now (claim_row now worker n) ≡ none
due-claim_row now worker n = refl

oldest-is_there :
    (now k : ℕ) (rows : List Notification)
    → oldest (due_at now) rows ≡ some k
    → (n : Notification) × (find_first (λ x. has_age (due_at now x) k) rows ≡ some n)
oldest-is_there now k [] e = absurd (ground arith)
oldest-is_there now k (x ∷ rows) e = elim (Bool-cases (has_age (due_at now x) k)) [
  | inl own ↦ (x, rw own refl)
  | inr other ↦ let (n, found) = oldest-is_there now k rows (ground arith) in (n, rw other found)
]

due-claim_first :
    (now worker k : ℕ) (rows : List Notification)
    → oldest (due_at now) rows ≡ some k
    → suc (due_count now (update_first (λ x. has_age (due_at now x) k) (claim_row now worker) rows))
      ≡ due_count now rows
due-claim_first now worker k [] e = absurd (ground arith)
due-claim_first now worker k (x ∷ rows) e = ground (arith, due-claim_first now worker k rows)

-- What a claim does to the rows of one kind: those that were due and are no more, and the exchange
-- of the rows taken for the same rows under the lease.
abbrev pub due_of : ℕ → (Notification → Bool) → Notification → Bool
due_of now kind n = is_due now n && kind n

due_of-claim_first :
    (now worker k : ℕ) (kind : Notification → Bool) (rows : List Notification) (n : Notification)
    → find_first (λ x. has_age (due_at now x) k) rows ≡ some n
    → (if kind n then 1 else 0)
        + count
            (due_of now kind)
            (update_first (λ x. has_age (due_at now x) k) (claim_row now worker) rows)
      ≡ count (due_of now kind) rows
due_of-claim_first now worker k kind rows n f = ground (
  arith,
  total-update_first (λ x. if due_of now kind x then 1 else 0) (λ x. has_age (due_at now x) k)
      (claim_row now worker) rows n f,
  find_first-holds (λ x. has_age (due_at now x) k) rows n f,
)

-- A claim takes due rows up to the limit: so many fewer are due afterwards. The rows taken and those
-- still due are together the rows that were due, and the new table is the old one with the rows
-- taken exchanged for the same rows, sent by this worker since now; both hold as for multisets, kind
-- by kind.
pub claim-count :
    (now worker limit : ℕ) (rows : List Notification) (kind : Notification → Bool)
    → (due_count now (claim now worker limit rows).1 ≡ due_count now rows - limit)
      × (count kind (claim now worker limit rows).0
            + count (due_of now kind) (claim now worker limit rows).1
          ≡ count (due_of now kind) rows)
      × (count kind (claim now worker limit rows).1 + count kind (claim now worker limit rows).0
          ≡ count kind rows
            + count
                (λ n. kind (record n {
                  status = OutboxStatus.sending;
                  lease_claimed_at = some now;
                  lease_claimed_by = some worker;
                }))
                (claim now worker limit rows).0)
unfolding claim
claim-count now worker zero rows kind = (omega arith, omega arith, omega arith)
claim-count now worker (suc limit) rows kind = elim (Option-cases (oldest (due_at now) rows)) [
  | inl e ↦
      let none_due = ages-oldest-none (due_at now) rows e in
      rw (e, claim) (omega (arith, none_due), omega arith, omega arith)
  | inr (k, e) ↦
      let (n, f) = oldest-is_there now k rows e in
      let rest = update_first (λ x. has_age (due_at now x) k) (claim_row now worker) rows in
      let (fewer, sum, exchanged) = claim-count now worker limit rest kind in
      let less = due-claim_first now worker k rows e in
      let taken = due_of-claim_first now worker k kind rows n f in
      let moved =
        total-update_first (λ x. if kind x then 1 else 0) (λ x. has_age (due_at now x) k)
          (claim_row now worker) rows n f in
      rw (e, f, claim)
        (omega (arith, fewer, less), omega (arith, sum, taken), omega (arith, exchanged, moved))
]
