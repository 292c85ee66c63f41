-- ===== src/Base/Sort/Suffix.antt =====
-- What stands behind an element of an ascending list.
use mathlib.Core.Path.{◌≡◌, refl, ap, ◌∙◌}
use mathlib.Core.Bool.{Bool, true, false}
use mathlib.Core.Option.{some}
use mathlib.Core.Logic.{inl, inr}
use mathlib.Core.List.{List, [], ◌∷◌, ◌++◌, Permᴰ}
use mathlib.Core.List.Permᴰ
use Prim.Native.Nat.{ℕ, zero, suc}
use evidra_gitops.Base.Tests.{Bool-cases, if◌then◌else◌}
use evidra_gitops.Base.Lists.{select, All, take, last?}
use evidra_gitops.Base.Sort.Laws.{IsOrder}
use evidra_gitops.Base.Sort.Distinct.{IsAscending}

module _ {ℓ} {A : Type ℓ} where
  pub select-All : (p : A → Bool) (xs : List A) → All (λ x. p x ≡ true) xs → select p xs ≡ xs
  unfolding select
  select-All p [] h = refl
  select-All p (x ∷ xs) h = rw (h.0, select-All p xs h.1)

  pub All-append_right {κ} : (P : A → Type κ) (xs ys : List A) → All P (xs ++ ys) → All P ys
  All-append_right P [] ys h = h
  All-append_right P (x ∷ xs) ys h = All-append_right P xs ys h.1

  -- A rearranged list gives a rearranged selection.
  pub select-perm :
      (p : A → Bool) {xs ys : List A} → Permᴰ xs ys → Permᴰ (select p xs) (select p ys)
  unfolding select
  select-perm p Permᴰ.nil = Permᴰ.nil
  select-perm p (Permᴰ.cons {a = a} {b = b} e q) = elim (Bool-cases (p b)) [
    | inl h ↦ rw (ap p e ∙ h) (rw h (Permᴰ.cons e (select-perm p q)))
    | inr h ↦ rw (ap p e ∙ h) (rw h (select-perm p q))
  ]
  select-perm p (Permᴰ.swap {a = a} {b = b} {a' = a'} {b' = b'} {l = l} e f) =
      swapped (p a') (p b') (ap p f) (ap p e)
    where
      swapped :
          (u v : Bool)
          → p b ≡ u
          → p a ≡ v
          → Permᴰ
              (if p a
                then a ∷ (if p b then b ∷ select p l else select p l)
                else (if p b then b ∷ select p l else select p l))
              (if u
                then a' ∷ (if v then b' ∷ select p l else select p l)
                else (if v then b' ∷ select p l else select p l))
      swapped true true hb ha = rw (ha, hb) (Permᴰ.swap e f)
      swapped true false hb ha = rw (ha, hb) (Permᴰ.cons f (Permᴰ.refl _))
      swapped false true hb ha = rw (ha, hb) (Permᴰ.cons e (Permᴰ.refl _))
      swapped false false hb ha = rw (ha, hb) (Permᴰ.refl _)
  select-perm p (Permᴰ.trans q r) = Permᴰ.trans (select-perm p q) (select-perm p r)

  -- A first page that is not empty ends in its last element.
  pub take_last :
      (n : ℕ) (y : A) (ys : List A)
      → (front : List A) × (x : A) × (take (suc n) (y ∷ ys) ≡ front ++ (x ∷ []))
        × (last? (take (suc n) (y ∷ ys)) ≡ some x)
  take_last zero y ys = ([], y, refl, refl)
  take_last (suc n) y [] = ([], y, refl, refl)
  take_last (suc n) y (z ∷ zs) =
      let (front, x, shape, last) = take_last n z zs in (y ∷ front, x, ap (◌∷◌ y) shape, last)

module _ {ℓ} {A : Type ℓ} (less : A → A → Bool) (o : IsOrder less) where
  -- The elements behind `x` are those that `x` comes before.
  pub select_behind :
      (front : List A) (x : A) (rest : List A)
      → IsAscending less (front ++ (x ∷ rest))
      → select (less x) (front ++ (x ∷ rest)) ≡ rest
  unfolding select
  select_behind [] x rest h = rw (o.irrefl x) (select-All (less x) rest h.0)
  select_behind (y ∷ front) x rest h =
      rw (o.asymm y x (All-append_right _ front (x ∷ rest) h.0).0) (select_behind front x rest h.1)
