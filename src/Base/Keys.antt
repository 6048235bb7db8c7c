-- ===== src/Base/Keys.antt =====
-- Rows found again under their primary key.
use Prim.Native.Nat.{ℕ, ◌≤◌}
use mathlib.Core.Path.{◌≡◌, refl}
use mathlib.Core.Bool.{Bool}
use mathlib.Core.Logic.{inl, inr}
use mathlib.Core.Option.{some}
use mathlib.Core.List.{List, [], ◌∷◌, ◌++◌}
use native.Mathlib.Omega.{arith}
use moeen.Base.Tests.{Bool-cases, ◌==◌}
use moeen.Base.Table.{find_first, count, delete_where}

module _ {ℓ} {A : Type ℓ} where
  pub count-delete_where : (p : A → Bool) (xs : List A) → count p (delete_where p xs) ≡ 0
  count-delete_where p [] = refl
  count-delete_where p (x ∷ xs) = ground (arith, count-delete_where p xs)

module _ {ℓ} {A : Type ℓ} (key : A → ℕ) where
  find_first-counted_by :
      (p : A → Bool) (xs : List A) (x : A)
      → find_first p xs ≡ some x
      → 1 ≤ count (λ y. key y == key x) xs
  find_first-counted_by p [] x h = cc
  find_first-counted_by p (y ∷ xs) x h = elim (Bool-cases (p y)) [
    | inl here ↦ ground (arith, here)
    | inr there ↦ ground (arith, find_first-counted_by p xs x (rw there at h))
  ]

  pub find_first-again :
      (p : A → Bool) (xs : List A) (x : A)
      → find_first p xs ≡ some x
      → count (λ y. key y == key x) xs ≤ 1
      → find_first (λ y. key y == key x) xs ≡ some x
  find_first-again p [] x h unique = cc
  find_first-again p (y ∷ xs) x h unique = elim (Bool-cases (p y)) [
    | inl here ↦ ground (arith, here)
    | inr there ↦
        let later : find_first p xs ≡ some x = rw there at h in
        ground (arith, find_first-again p xs x later, find_first-counted_by p xs x later)
  ]

  pub find_first-new :
      (k : ℕ) (xs : List A) (x : A)
      → count (λ y. key y == k) xs ≡ 0
      → key x ≡ k
      → find_first (λ y. key y == k) (xs ++ (x ∷ [])) ≡ some x
  find_first-new k [] x fresh e = ground arith
  find_first-new k (y ∷ xs) x fresh e = ground (arith, find_first-new k xs x)
