-- ===== src/Common/Sort.antt =====
-- A stable sort by a number, as `sort((a, b) => a.key - b.key)`, and what it keeps.
use Prim.Native.Nat.{ℕ}
use mathlib.Core.Path.{◌≡◌, refl}
use mathlib.Core.Bool.{◌||◌}
use mathlib.Core.List.{List, [], ◌∷◌, map}
use native.Mathlib.Omega.{arith}
use mr_robot.Common.Tests.{if◌then◌else◌, leb}
use mr_robot.Common.Map.{Eq, has}

module _ {ℓ} {A : Type ℓ} (key : A → ℕ) where
  unfoldable pub insert_by : A → List A → List A
  insert_by x [] = x ∷ []
  insert_by x (y ∷ ys) =
      let rest = insert_by x ys in if leb (key x) (key y) then x ∷ y ∷ ys else y ∷ rest

  unfoldable pub sort_by : List A → List A
  sort_by [] = []
  sort_by (x ∷ xs) = insert_by x (sort_by xs)

module _ {ℓ κ} {A : Type ℓ} {K : Type κ} ⦃e : Eq K⦄ (key : A → ℕ) (id : A → K) where
  has-insert_by :
      (k : K) (x : A) (ys : List A)
      → has k (map id (insert_by key x ys)) ≡ (e.beq (id x) k || has k (map id ys))
  unfolding insert_by has
  has-insert_by k x [] = refl
  has-insert_by k x (y ∷ ys) = ground (arith, has-insert_by k x ys)

  -- Sorting keeps the ids of what is sorted.
  pub has-sort_by : (k : K) (xs : List A) → has k (map id (sort_by key xs)) ≡ has k (map id xs)
  unfolding sort_by has
  has-sort_by k [] = refl
  has-sort_by k (x ∷ xs) = ground (arith, has-sort_by k xs, has-insert_by k x (sort_by key xs))
