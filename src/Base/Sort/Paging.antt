-- ===== src/Base/Sort/Paging.antt =====
-- A list that is cut into pages of a positive length.
use mathlib.Core.List.{List, [], ◌∷◌, ◌++◌, append_assoc}
use mathlib.Core.Path.{◌≡◌, sym, ap, ◌∙◌}
use mathlib.Core.Bool.{true}
use mathlib.Core.Option.{some}
use Prim.Native.Nat.{ℕ, zero, suc, ◌<◌}
use native.Mathlib.Omega.{arith}
use evidra_gitops.Base.Tests.{ltb}
use evidra_gitops.Base.Lists.{take, drop, length, last?, take-append-drop, length-drop}
use evidra_gitops.Base.Sort.Suffix.{take_last}

module _ {ℓ} {A : Type ℓ} where
  -- A page that is not the last ends in some element.
  pub page_split :
      (n : ℕ) (rest : List A)
      → 0 < n
      → ltb n (length rest) ≡ true
      → (front : List A) × (x : A) × (take n rest ≡ front ++ (x ∷ []))
        × (last? (take n rest) ≡ some x)
  page_split zero rest h long = elim h [ ]
  page_split (suc n) [] h long = absurd (ground arith)
  page_split (suc n) (y ∷ ys) h long = take_last n y ys

  pub regroup :
      (front f : List A) (x : A) (n : ℕ) (rest whole : List A)
      → take n rest ≡ f ++ (x ∷ [])
      → whole ≡ front ++ rest
      → whole ≡ (front ++ f) ++ (x ∷ drop n rest)
  regroup front f x n rest whole ending shape =
      shape
      ∙ ap (◌++◌ front) (
          sym (take-append-drop n rest)
          ∙ ap (λ t. t ++ drop n rest) ending
          ∙ append_assoc f (x ∷ []) (drop n rest))
      ∙ sym (append_assoc front f (x ∷ drop n rest))

  pub fewer_left :
      (n rounds : ℕ) (rest : List A)
      → 0 < n
      → ltb n (length rest) ≡ true
      → length rest < suc rounds
      → length (drop n rest) < rounds
  fewer_left n rounds rest h long enough = ground (arith, length-drop n rest)
