-- ===== src/Base/Failure.antt =====
-- Fallible code as values: `throw` is `err`, and a chain of fallible steps is a `do` block.
-- A transaction that throws is rolled back: `err` carries no state, so the caller keeps the old one.
use mathlib.Core.Path.{◌≡◌, refl}
use mathlib.Core.Bool.{Bool, true, false}
use mathlib.Core.Option.{Option, none, some}

pub data Outcome {ℓ} (E : Type 0) (A : Type ℓ) : Type ℓ where
  ok : A → Outcome E A
  err : E → Outcome E A

-- `if (!test) throw failure`.
abbrev pub guard : {E : Type 0} → Bool → E → Outcome E (Unit {0})
guard false failure = err failure
guard true failure = ok tt

infixl 5 ◌>>=◌ ◌>>◌
abbrev pub ◌>>=◌ {ℓ κ} :
    {E : Type 0} {A : Type ℓ} {B : Type κ} → Outcome E A → (A → Outcome E B) → Outcome E B
err failure >>= next = err failure
ok value >>= next = next value

abbrev pub ◌>>◌ {ℓ} : {E : Type 0} {B : Type ℓ} → Outcome E (Unit {0}) → Outcome E B → Outcome E B
first >> second = first >>= λ done. second

abbrev pub or_fail {ℓ} : {E : Type 0} {A : Type ℓ} → Option A → E → Outcome E A
or_fail none e = err e
or_fail (some a) e = ok a

-- The state after a transaction: the new one on COMMIT, the old one on ROLLBACK.
abbrev pub committed {ℓ κ} : {E : Type 0} {S : Type ℓ} {A : Type κ} → S → Outcome E (S × A) → S
committed s (ok (t, a)) = t
committed s (err e) = s

-- Inversion of the steps of a block that returned.
module _ {ℓ} {E : Type 0} {B : Type ℓ} where
  pub >>=-eq-ok {κ} :
      {A : Type κ} (first : Outcome E A) (next : A → Outcome E B) {b : B}
      → (first >>= next) ≡ ok b
      → (value : A) × (first ≡ ok value) × (next value ≡ ok b)
  >>=-eq-ok (err failure) next e = cc
  >>=-eq-ok (ok value) next e = (value, refl, e)

  pub or_fail-eq-ok {κ} :
      {A : Type κ} (o : Option A) (e : E) (f : A → Outcome E B) {b : B}
      → (or_fail o e >>= f) ≡ ok b
      → (a : A) × (o ≡ some a) × (f a ≡ ok b)
  or_fail-eq-ok (some a) e f h = (a, refl, h)
  or_fail-eq-ok none e f h = cc

  pub guard-eq-ok :
      (t : Bool) (e : E) (m : Outcome E B) {b : B}
      → (guard t e >> m) ≡ ok b
      → (t ≡ true) × (m ≡ ok b)
  guard-eq-ok true e m h = (refl, h)
  guard-eq-ok false e m h = cc

-- What holds of the old state, and of every state that a transaction returns, holds afterwards.
pub committed_cases {ℓ κ μ} :
    {E : Type 0} {S : Type ℓ} {A : Type κ} (P : S → Type μ) (s : S) (o : Outcome E (S × A))
    → P s
    → ((t : S) (a : A) → o ≡ ok (t, a) → P t)
    → P (committed s o)
committed_cases P s (ok (t, a)) old new = new t a refl
committed_cases P s (err e) old new = old
