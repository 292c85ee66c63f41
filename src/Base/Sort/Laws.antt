-- ===== src/Base/Sort/Laws.antt =====
-- The sorted list is in order, and sorting commutes with selecting.
use mathlib.Core.Path.{◌≡◌, refl, sym, ap, ◌∙◌}
use mathlib.Core.Bool.{Bool, true, false}
use mathlib.Core.Logic.{inl, inr}
use mathlib.Core.List.{List, [], ◌∷◌}
use Prim.Native.Nat.{suc}
use native.Mathlib.Omega.{arith}
use evidra_gitops.Base.Tests.{Bool-cases}
use evidra_gitops.Base.Lists.{length, select, All, All-select, All-map}
use evidra_gitops.Base.Sort.{insert_by, sort_by}

-- What a `less` function has to satisfy: a strict weak order.
pub record IsOrder {ℓ} {A : Type ℓ} (less : A → A → Bool) : Type ℓ where
  pub irrefl : (a : A) → less a a ≡ false
  pub asymm : (a b : A) → less a b ≡ true → less b a ≡ false
  pub trans : (a b c : A) → less a b ≡ true → less b c ≡ true → less a c ≡ true
  pub weak : (a b c : A) → less a b ≡ false → less b c ≡ false → less a c ≡ false

module _ {ℓ} {A : Type ℓ} (less : A → A → Bool) where
  -- No later element belongs before an earlier one.
  abbrev pub IsSorted : List A → Type 0
  IsSorted [] = Unit
  IsSorted (x ∷ xs) = All (λ y. less y x ≡ false) xs × IsSorted xs

  pub All-insert_by {κ} :
      (P : A → Type κ) (x : A) (ys : List A) → P x → All P ys → All P (insert_by less x ys)
  unfolding insert_by
  All-insert_by P x [] px h = (px, tt)
  All-insert_by P x (y ∷ ys) px h = elim (Bool-cases (less y x)) [
    | inl e ↦ rw e (h.0, All-insert_by P x ys px h.1)
    | inr e ↦ rw e (px, h)
  ]

  pub All-sort_by {κ} : (P : A → Type κ) (xs : List A) → All P xs → All P (sort_by less xs)
  unfolding sort_by
  All-sort_by P [] h = tt
  All-sort_by P (x ∷ xs) h = All-insert_by P x (sort_by less xs) h.0 (All-sort_by P xs h.1)

  length-insert_by : (x : A) (ys : List A) → length (insert_by less x ys) ≡ suc (length ys)
  unfolding insert_by
  length-insert_by x [] = refl
  length-insert_by x (y ∷ ys) = ground (arith, length-insert_by x ys)

  pub length-sort_by : (xs : List A) → length (sort_by less xs) ≡ length xs
  unfolding sort_by
  length-sort_by [] = refl
  length-sort_by (x ∷ xs) = length-insert_by x (sort_by less xs) ∙ ap suc (length-sort_by xs)

  pub insert_by_front :
      (x : A) (ys : List A) → All (λ y. less y x ≡ false) ys → insert_by less x ys ≡ x ∷ ys
  unfolding insert_by
  insert_by_front x [] h = refl
  insert_by_front x (y ∷ ys) h = rw h.0

module _ {ℓ} {A : Type ℓ} (less : A → A → Bool) (o : IsOrder less) where
  behind :
      (x y : A) (ys : List A)
      → less y x ≡ false
      → All (λ z. less z y ≡ false) ys
      → All (λ z. less z x ≡ false) ys
  behind x y ys h = All-map _ _ (λ z hz. o.weak z y x hz h) ys

  insert_by-IsSorted :
      (x : A) (ys : List A) → IsSorted less ys → IsSorted less (insert_by less x ys)
  unfolding insert_by
  insert_by-IsSorted x [] h = (tt, tt)
  insert_by-IsSorted x (y ∷ ys) h = elim (Bool-cases (less y x)) [
    | inl e ↦ rw e (
      All-insert_by less (λ z. less z y ≡ false) x ys (o.asymm y x e) h.0,
      insert_by-IsSorted x ys h.1,
    )
    | inr e ↦ rw e ((e, behind x y ys e h.0), h)
  ]

  pub sort_by-IsSorted : (xs : List A) → IsSorted less (sort_by less xs)
  unfolding sort_by
  sort_by-IsSorted [] = tt
  sort_by-IsSorted (x ∷ xs) = insert_by-IsSorted x (sort_by less xs) (sort_by-IsSorted xs)

  select-insert_by_kept :
      (p : A → Bool) (x : A) (ys : List A)
      → p x ≡ true
      → IsSorted less ys
      → select p (insert_by less x ys) ≡ insert_by less x (select p ys)
  unfolding insert_by select
  select-insert_by_kept p x [] px h = rw px
  select-insert_by_kept p x (y ∷ ys) px h = elim (Bool-cases (less y x)) [
    | inl e ↦ ground (arith, select-insert_by_kept p x ys px h.1)
    | inr e ↦
        let front =
          insert_by_front less x (select p (y ∷ ys))
            (All-select _ p (y ∷ ys) (e, behind x y ys e h.0)) in
        rw (e, px) (sym front)
  ]

  select-insert_by_dropped :
      (p : A → Bool) (x : A) (ys : List A)
      → p x ≡ false
      → select p (insert_by less x ys) ≡ select p ys
  unfolding insert_by select
  select-insert_by_dropped p x [] px = rw px
  select-insert_by_dropped p x (y ∷ ys) px = ground (arith, select-insert_by_dropped p x ys px)

  -- To sort what was selected is to select from what was sorted.
  pub select-sort_by :
      (p : A → Bool) (xs : List A) → select p (sort_by less xs) ≡ sort_by less (select p xs)
  unfolding sort_by select
  select-sort_by p [] = refl
  select-sort_by p (x ∷ xs) = elim (Bool-cases (p x)) [
    | inl px ↦ rw px (
        select-insert_by_kept p x (sort_by less xs) px (sort_by-IsSorted xs)
        ∙ ap (insert_by less x) (select-sort_by p xs))
    | inr px ↦ rw px (select-insert_by_dropped p x (sort_by less xs) px ∙ select-sort_by p xs)
  ]
