-- ===== src/Base/Table.antt =====
-- The SQL statements that the repositories issue, over a table as the list of its rows:
-- `SELECT … WHERE`, `UPDATE … WHERE`, and the forms by a primary or unique key, which names one
-- row at most.
use Prim.Native.Nat.{ℕ, suc, ◌+◌, ◌≤◌}
use mathlib.Core.Path.{◌≡◌, refl, ap, ◌∙◌}
use mathlib.Core.Logic.{inl, inr}
use mathlib.Core.Bool.{Bool, true, false}
use mathlib.Core.Option.{Option, none, some}
use mathlib.Core.Option
use mathlib.Core.List.{List, [], ◌∷◌, ◌++◌}
use native.Mathlib.Omega.{arith}
use moeen.Base.Tests.{◌==◌, if◌then◌else◌, Bool-cases, ==_iff}
use moeen.Base.Lists.{All, any}

module _ {ℓ} {A : Type ℓ} where
  -- SELECT … WHERE p, in the order of the table.
  abbrev pub select : (A → Bool) → List A → List A
  select p [] = []
  select p (x ∷ xs) = let rest = select p xs in if p x then x ∷ rest else rest

  -- `rows[0]` of SELECT … WHERE p.
  abbrev pub find_first : (A → Bool) → List A → Option A
  find_first p [] = none
  find_first p (x ∷ xs) = if p x then some x else find_first p xs

  -- UPDATE … SET f WHERE p.
  abbrev pub update_where : (A → Bool) → (A → A) → List A → List A
  update_where p f [] = []
  update_where p f (x ∷ xs) = (if p x then f x else x) ∷ update_where p f xs

  -- UPDATE … SET f WHERE p, where a unique key makes one row at most fit.
  abbrev pub update_first : (A → Bool) → (A → A) → List A → List A
  update_first p f [] = []
  update_first p f (x ∷ xs) = if p x then f x ∷ xs else x ∷ update_first p f xs

  -- DELETE … WHERE p.
  abbrev pub delete_where : (A → Bool) → List A → List A
  delete_where p [] = []
  delete_where p (x ∷ xs) = let rest = delete_where p xs in if p x then rest else x ∷ rest

  -- A sum over the rows, such as `count(*) FILTER (WHERE …)`.
  abbrev pub total : (A → ℕ) → List A → ℕ
  total w [] = 0
  total w (x ∷ xs) = w x + total w xs

  -- count(*) … WHERE p.
  abbrev pub count : (A → Bool) → List A → ℕ
  count p = total (λ x. if p x then 1 else 0)

module _ {ℓ} {A : Type ℓ} where
  pub total-append : (w : A → ℕ) (xs ys : List A) → total w (xs ++ ys) ≡ total w xs + total w ys
  total-append w [] ys = omega arith
  total-append w (x ∷ xs) ys = omega (arith, total-append w xs ys)

  pub total-update_where-le :
      (w : A → ℕ) (p : A → Bool) (f : A → A) (xs : List A)
      → ((x : A) → p x ≡ true → w (f x) ≤ w x)
      → total w (update_where p f xs) ≤ total w xs
  total-update_where-le w p f [] h = omega arith
  total-update_where-le w p f (x ∷ xs) h = ground (arith, h x, total-update_where-le w p f xs h)

  pub total-update_where-eq :
      (w : A → ℕ) (p : A → Bool) (f : A → A) (xs : List A)
      → ((x : A) → p x ≡ true → w (f x) ≡ w x)
      → total w (update_where p f xs) ≡ total w xs
  total-update_where-eq w p f [] h = refl
  total-update_where-eq w p f (x ∷ xs) h = ground (arith, h x, total-update_where-eq w p f xs h)

  -- A write to the row that the read found moves the sum by that row's difference.
  pub total-update_first :
      (w : A → ℕ) (p : A → Bool) (f : A → A) (xs : List A) (x : A)
      → find_first p xs ≡ some x
      → total w (update_first p f xs) + w x ≡ total w xs + w (f x)
  total-update_first w p f [] x h = ground arith
  total-update_first w p f (y ∷ xs) x h = ground (arith, total-update_first w p f xs x)

  pub total-update_first-le :
      (w : A → ℕ) (p : A → Bool) (f : A → A) (xs : List A)
      → ((x : A) → p x ≡ true → w (f x) ≤ w x)
      → total w (update_first p f xs) ≤ total w xs
  total-update_first-le w p f [] h = omega arith
  total-update_first-le w p f (x ∷ xs) h = ground (arith, h x, total-update_first-le w p f xs h)

  pub total-delete_where-le :
      (w : A → ℕ) (p : A → Bool) (xs : List A) → total w (delete_where p xs) ≤ total w xs
  total-delete_where-le w p [] = omega arith
  total-delete_where-le w p (x ∷ xs) = ground (arith, total-delete_where-le w p xs)

  -- Rows that count for nothing may go.
  pub total-delete_where-eq :
      (w : A → ℕ) (p : A → Bool) (xs : List A)
      → ((x : A) → p x ≡ true → w x ≡ 0)
      → total w (delete_where p xs) ≡ total w xs
  total-delete_where-eq w p [] h = refl
  total-delete_where-eq w p (x ∷ xs) h = ground (arith, h x, total-delete_where-eq w p xs h)

  pub total-le : (v w : A → ℕ) (xs : List A) → ((x : A) → v x ≤ w x) → total v xs ≤ total w xs
  total-le v w [] h = omega arith
  total-le v w (x ∷ xs) h = omega (arith, h x, total-le v w xs h)

  -- No row fits, so the count is 0.
  pub total-zero : (w : A → ℕ) (xs : List A) → ((x : A) → w x ≡ 0) → total w xs ≡ 0
  total-zero w [] h = refl
  total-zero w (x ∷ xs) h = omega (arith, h x, total-zero w xs h)

  pub find_first-none-total :
      (w : A → ℕ) (p : A → Bool) (xs : List A)
      → ((x : A) → p x ≡ false → w x ≡ 0)
      → find_first p xs ≡ none
      → total w xs ≡ 0
  find_first-none-total w p [] h e = refl
  find_first-none-total w p (x ∷ xs) h e = ground (arith, h x, find_first-none-total w p xs h)

  pub find_first-holds :
      (p : A → Bool) (xs : List A) (x : A) → find_first p xs ≡ some x → p x ≡ true
  find_first-holds p [] x h = ground arith
  find_first-holds p (y ∷ xs) x h = ground (arith, find_first-holds p xs x)

  pub find_first-append :
      (p : A → Bool) (xs ys : List A) (x : A)
      → find_first p xs ≡ some x
      → find_first p (xs ++ ys) ≡ some x
  find_first-append p [] ys x h = ground arith
  find_first-append p (y ∷ xs) ys x h = ground (arith, find_first-append p xs ys x)

  pub find_first-update_first :
      (p : A → Bool) (f : A → A) (xs : List A)
      → ((x : A) → p x ≡ true → p (f x) ≡ true)
      → find_first p (update_first p f xs) ≡ Option.map f (find_first p xs)
  find_first-update_first p f [] h = ground arith
  find_first-update_first p f (x ∷ xs) h = ground (arith, h x, find_first-update_first p f xs h)

  pub found-update_first :
      (p : A → Bool) (f : A → A) (xs : List A) (x : A)
      → ((y : A) → p y ≡ true → p (f y) ≡ true)
      → find_first p xs ≡ some x
      → find_first p (update_first p f xs) ≡ some (f x)
  found-update_first p f xs x h e = find_first-update_first p f xs h ∙ ap (Option.map f) e

  -- The statement leaves no row that its WHERE clause fits.
  pub count-update_where :
      (p : A → Bool) (f : A → A) (xs : List A)
      → ((x : A) → p x ≡ true → p (f x) ≡ false)
      → count p (update_where p f xs) ≡ 0
  count-update_where p f [] h = refl
  count-update_where p f (x ∷ xs) h = ground (arith, h x, count-update_where p f xs h)

  -- A statement that hits a row which fits leaves one such row less, at least.
  pub count-update_where-less :
      (q p : A → Bool) (f : A → A) (xs : List A) (x : A)
      → ((y : A) → p y ≡ true → q (f y) ≡ false)
      → p x ≡ true
      → find_first q xs ≡ some x
      → suc (count q (update_where p f xs)) ≤ count q xs
  count-update_where-less q p f [] x h hit e = absurd (ground arith)
  count-update_where-less q p f (y ∷ xs) x h hit e = ground (
    arith,
    h y,
    count-update_where-less q p f xs x h hit,
    total-update_where-le (λ z. if q z then 1 else 0) p f xs (λ z k. ground (arith, h z)),
  )

  pub found-update_where :
      (q p : A → Bool) (f : A → A) (xs : List A) (x : A)
      → ((y : A) → p y ≡ true → q y ≡ true → q (f y) ≡ true)
      → ((y : A) → p y ≡ true → q y ≡ false → q (f y) ≡ false)
      → find_first q xs ≡ some x
      → find_first q (update_where p f xs) ≡ some (if p x then f x else x)
  found-update_where q p f [] x h k e = absurd (ground arith)
  found-update_where q p f (y ∷ xs) x h k e =
      ground (arith, h y, k y, found-update_where q p f xs x h k)

  pub All-find_first {κ} :
      (P : A → Type κ) (p : A → Bool) (xs : List A) (x : A)
      → All P xs
      → find_first p xs ≡ some x
      → P x
  All-find_first P p [] x all h = absurd (ground arith)
  All-find_first P p (y ∷ xs) x all h = elim (Bool-cases (p y)) [
    | inl e ↦ ground (arith, all.0)
    | inr e ↦ All-find_first P p xs x all.1 (ground arith)
  ]

  pub All-update_where {κ} :
      (P : A → Type κ) (p : A → Bool) (f : A → A) (xs : List A)
      → ((x : A) → p x ≡ true → P x → P (f x))
      → All P xs
      → All P (update_where p f xs)
  All-update_where P p f [] h all = tt
  All-update_where P p f (x ∷ xs) h all = elim (Bool-cases (p x)) [
    | inl e ↦ rw e (h x e all.0, All-update_where P p f xs h all.1)
    | inr e ↦ rw e (all.0, All-update_where P p f xs h all.1)
  ]

  pub All-update_first {κ} :
      (P : A → Type κ) (p : A → Bool) (f : A → A) (xs : List A)
      → ((x : A) → p x ≡ true → P x → P (f x))
      → All P xs
      → All P (update_first p f xs)
  All-update_first P p f [] h all = tt
  All-update_first P p f (x ∷ xs) h all = elim (Bool-cases (p x)) [
    | inl e ↦ rw e (h x e all.0, all.1)
    | inr e ↦ rw e (all.0, All-update_first P p f xs h all.1)
  ]

  pub All-delete_where {κ} :
      (P : A → Type κ) (p : A → Bool) (xs : List A) → All P xs → All P (delete_where p xs)
  All-delete_where P p [] all = tt
  All-delete_where P p (x ∷ xs) all = elim (Bool-cases (p x)) [
    | inl e ↦ rw e (All-delete_where P p xs all.1)
    | inr e ↦ rw e (all.0, All-delete_where P p xs all.1)
  ]

  -- The same, when the statement also moves what the rows that it leaves alone satisfy.
  pub All-update_where-to {κ μ} :
      (P : A → Type κ) (Q : A → Type μ) (p : A → Bool) (f : A → A) (xs : List A)
      → ((x : A) → p x ≡ true → P x → Q (f x))
      → ((x : A) → p x ≡ false → P x → Q x)
      → All P xs
      → All Q (update_where p f xs)
  All-update_where-to P Q p f [] h k all = tt
  All-update_where-to P Q p f (x ∷ xs) h k all = elim (Bool-cases (p x)) [
    | inl e ↦ rw e (h x e all.0, All-update_where-to P Q p f xs h k all.1)
    | inr e ↦ rw e (k x e all.0, All-update_where-to P Q p f xs h k all.1)
  ]

  pub All-delete_where-to {κ μ} :
      (P : A → Type κ) (Q : A → Type μ) (p : A → Bool) (xs : List A)
      → ((x : A) → p x ≡ false → P x → Q x)
      → All P xs
      → All Q (delete_where p xs)
  All-delete_where-to P Q p [] k all = tt
  All-delete_where-to P Q p (x ∷ xs) k all = elim (Bool-cases (p x)) [
    | inl e ↦ rw e (All-delete_where-to P Q p xs k all.1)
    | inr e ↦ rw e (k x e all.0, All-delete_where-to P Q p xs k all.1)
  ]

  pub any-append : (q : A → Bool) (xs ys : List A) → any q xs ≡ true → any q (xs ++ ys) ≡ true
  any-append q [] ys h = absurd (ground arith)
  any-append q (x ∷ xs) ys h = ground (arith, any-append q xs ys)

  -- A witness that the statement keeps is still there.
  pub any-update_where :
      (q p : A → Bool) (f : A → A) (xs : List A)
      → ((x : A) → p x ≡ true → q x ≡ true → q (f x) ≡ true)
      → any q xs ≡ true
      → any q (update_where p f xs) ≡ true
  any-update_where q p f [] h e = e
  any-update_where q p f (x ∷ xs) h e = ground (arith, h x, any-update_where q p f xs h)

  pub any-update_first :
      (q p : A → Bool) (f : A → A) (xs : List A)
      → ((x : A) → p x ≡ true → q x ≡ true → q (f x) ≡ true)
      → any q xs ≡ true
      → any q (update_first p f xs) ≡ true
  any-update_first q p f [] h e = e
  any-update_first q p f (x ∷ xs) h e = ground (arith, h x, any-update_first q p f xs h)

  pub any-find_first :
      (q p : A → Bool) (xs : List A) (x : A)
      → find_first p xs ≡ some x
      → q x ≡ true
      → any q xs ≡ true
  any-find_first q p [] x e h = absurd (ground arith)
  any-find_first q p (y ∷ xs) x e h = ground (arith, any-find_first q p xs x)

-- Rows by their primary key.
module _ {ℓ} {A : Type ℓ} (key : A → ℕ) where
  abbrev pub find_by : ℕ → List A → Option A
  find_by k = find_first (λ x. key x == k)

  abbrev pub update_by : ℕ → (A → A) → List A → List A
  update_by k = update_first (λ x. key x == k)

  pub find_by-key : (k : ℕ) (xs : List A) (x : A) → find_by k xs ≡ some x → key x ≡ k
  find_by-key k xs x h = (==_iff (key x) k).0 (find_first-holds (λ y. key y == k) xs x h)

  pub find_by-update_by :
      (k j : ℕ) (f : A → A) (xs : List A)
      → ((x : A) → key (f x) ≡ key x)
      → find_by j (update_by k f xs)
        ≡ (if k == j then Option.map f (find_by k xs) else find_by j xs)
  find_by-update_by k j f [] h = ground arith
  find_by-update_by k j f (x ∷ xs) h = ground (arith, h x, find_by-update_by k j f xs h)
