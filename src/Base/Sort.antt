-- ===== src/Base/Sort.antt =====
-- `sort.Slice` with a `less` function, as an insertion sort. Where `less` leaves two elements
-- undecided Go promises no order; here the first stays first.
pub mod Laws
pub mod Distinct
pub mod Suffix
pub mod Paging
use mathlib.Core.Bool.{Bool}
use mathlib.Core.List.{List, [], ◌∷◌}
use evidra_gitops.Base.Tests.{if◌then◌else◌}

module _ {ℓ} {A : Type ℓ} (less : A → A → Bool) where
  pub insert_by : A → List A → List A
  insert_by x [] = x ∷ []
  insert_by x (y ∷ ys) = let rest = insert_by x ys in if less y x then y ∷ rest else x ∷ y ∷ ys

  unfoldable pub sort_by : List A → List A
  unfolding insert_by
  sort_by [] = []
  sort_by (x ∷ xs) = insert_by x (sort_by xs)
