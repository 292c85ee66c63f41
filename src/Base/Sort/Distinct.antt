-- ===== src/Base/Sort/Distinct.antt =====
-- Elements that the order tells apart: the result is strictly ascending, and one for every order of
-- the input.
use mathlib.Core.Path.{◌≡◌, refl, sym, ap, subst, ◌∙◌}
use mathlib.Core.Bool.{Bool, true, false, ◌||◌}
use mathlib.Core.Logic.{inl, inr}
use mathlib.Core.List.{List, [], ◌∷◌, Permᴰ}
use native.Mathlib.Omega.{arith}
use evidra_gitops.Base.Tests.{Bool-cases}
use evidra_gitops.Base.Lists.{select, All, All-select}
use evidra_gitops.Base.Sort.{insert_by, sort_by}
use evidra_gitops.Base.Sort.Laws.{IsOrder, IsSorted, All-insert_by, All-sort_by, sort_by-IsSorted}

module _ {ℓ} {A : Type ℓ} (less : A → A → Bool) where
  -- The order puts one of the two first.
  abbrev pub differ : A → A → Bool
  differ a b = less a b || less b a

  abbrev pub IsDistinct : List A → Type 0
  IsDistinct [] = Unit
  IsDistinct (x ∷ xs) = All (λ y. differ x y ≡ true) xs × IsDistinct xs

  abbrev pub IsAscending : List A → Type 0
  IsAscending [] = Unit
  IsAscending (x ∷ xs) = All (λ y. less x y ≡ true) xs × IsAscending xs

  differ_comm : (a b : A) → differ a b ≡ differ b a
  differ_comm a b = ground arith

  insert_by-IsDistinct :
      (x : A) (ys : List A)
      → All (λ y. differ x y ≡ true) ys
      → IsDistinct ys
      → IsDistinct (insert_by less x ys)
  unfolding insert_by
  insert_by-IsDistinct x [] new h = (tt, tt)
  insert_by-IsDistinct x (y ∷ ys) new h = elim (Bool-cases (less y x)) [
    | inl e ↦ rw e (
      All-insert_by less (λ z. differ y z ≡ true) x ys (differ_comm y x ∙ new.0) h.0,
      insert_by-IsDistinct x ys new.1 h.1,
    )
    | inr e ↦ rw e (new, h)
  ]

  sort_by-IsDistinct : (xs : List A) → IsDistinct xs → IsDistinct (sort_by less xs)
  unfolding sort_by
  sort_by-IsDistinct [] h = tt
  sort_by-IsDistinct (x ∷ xs) h =
      insert_by-IsDistinct x (sort_by less xs) (All-sort_by less _ xs h.0)
        (sort_by-IsDistinct xs h.1)

  pub select-IsDistinct : (p : A → Bool) (xs : List A) → IsDistinct xs → IsDistinct (select p xs)
  unfolding select
  select-IsDistinct p [] h = tt
  select-IsDistinct p (x ∷ xs) h = elim (Bool-cases (p x)) [
    | inl e ↦ rw e (All-select _ p xs h.0, select-IsDistinct p xs h.1)
    | inr e ↦ rw e (select-IsDistinct p xs h.1)
  ]

  pub select-IsAscending : (p : A → Bool) (xs : List A) → IsAscending xs → IsAscending (select p xs)
  unfolding select
  select-IsAscending p [] h = tt
  select-IsAscending p (x ∷ xs) h = elim (Bool-cases (p x)) [
    | inl e ↦ rw e (All-select _ p xs h.0, select-IsAscending p xs h.1)
    | inr e ↦ rw e (select-IsAscending p xs h.1)
  ]

  first_of_pair : (a b : A) → differ a b ≡ true → less b a ≡ false → less a b ≡ true
  first_of_pair a b d h = ground arith

  ascending_head :
      (x : A) (ys : List A)
      → All (λ y. less y x ≡ false) ys
      → All (λ y. differ x y ≡ true) ys
      → All (λ y. less x y ≡ true) ys
  ascending_head x [] s d = tt
  ascending_head x (y ∷ ys) s d = (first_of_pair x y d.0 s.0, ascending_head x ys s.1 d.1)

  IsAscending-of_sorted : (xs : List A) → IsSorted less xs → IsDistinct xs → IsAscending xs
  IsAscending-of_sorted [] s d = tt
  IsAscending-of_sorted (x ∷ xs) s d =
      (ascending_head x xs s.0 d.0, IsAscending-of_sorted xs s.1 d.1)

module _ {ℓ} {A : Type ℓ} (less : A → A → Bool) (o : IsOrder less) where
  pub sort_by-IsAscending : (xs : List A) → IsDistinct less xs → IsAscending less (sort_by less xs)
  sort_by-IsAscending xs d =
      IsAscending-of_sorted less (sort_by less xs) (sort_by-IsSorted less o xs)
        (sort_by-IsDistinct less xs d)

  -- Two elements that the order tells apart can be inserted either way round.
  insert_by_comm_lt :
      (x y : A) (zs : List A)
      → less x y ≡ true
      → insert_by less x (insert_by less y zs) ≡ insert_by less y (insert_by less x zs)
  unfolding insert_by
  insert_by_comm_lt x y [] h = rw (h, o.asymm x y h)
  insert_by_comm_lt x y (z ∷ zs) h =
      ground (arith, insert_by_comm_lt x y zs h, o.asymm x y h, o.trans z x y)

  insert_by_comm :
      (x y : A) (zs : List A)
      → differ less x y ≡ true
      → insert_by less x (insert_by less y zs) ≡ insert_by less y (insert_by less x zs)
  insert_by_comm x y zs d = elim (Bool-cases (less x y)) [
    | inl h ↦ insert_by_comm_lt x y zs h
    | inr h ↦ sym (insert_by_comm_lt y x zs (first_of_pair less y x (differ_comm less y x ∙ d) h))
  ]

module _ {ℓ κ} {A : Type ℓ} (P : A → Type κ) where
  All-perm : {xs ys : List A} → Permᴰ xs ys → All P xs → All P ys
  All-perm Permᴰ.nil h = tt
  All-perm (Permᴰ.cons e p) h = (subst P e h.0, All-perm p h.1)
  All-perm (Permᴰ.swap e f) h = (subst P f h.1.0, (subst P e h.0, h.1.1))
  All-perm (Permᴰ.trans p q) h = All-perm q (All-perm p h)

module _ {ℓ} {A : Type ℓ} (less : A → A → Bool) where
  IsDistinct-perm : {xs ys : List A} → Permᴰ xs ys → IsDistinct less xs → IsDistinct less ys
  IsDistinct-perm Permᴰ.nil d = tt
  IsDistinct-perm (Permᴰ.cons {l₂ = l₂} e p) d = (
    subst (λ a. All (λ y. differ less a y ≡ true) l₂) e (All-perm _ p d.0),
    IsDistinct-perm p d.1,
  )
  IsDistinct-perm (Permᴰ.swap {a = a} {b = b} {a' = a'} {b' = b'} {l = l} e f) d = (
    (
      subst (λ u. differ less u b' ≡ true) f
          (subst (λ u. differ less b u ≡ true) e (differ_comm less b a ∙ d.0.0)),
      subst (λ u. All (λ y. differ less u y ≡ true) l) f d.1.0,
    ),
    (subst (λ u. All (λ y. differ less u y ≡ true) l) e d.0.1, d.1.1),
  )
  IsDistinct-perm (Permᴰ.trans p q) d = IsDistinct-perm q (IsDistinct-perm p d)

module _ {ℓ} {A : Type ℓ} (less : A → A → Bool) (o : IsOrder less) where
  -- The sorted list does not depend on the order in which the elements were met.
  pub sort_by-perm :
      {xs ys : List A} → Permᴰ xs ys → IsDistinct less xs → sort_by less xs ≡ sort_by less ys
  unfolding sort_by
  sort_by-perm Permᴰ.nil d = refl
  sort_by-perm (Permᴰ.cons {l₂ = l₂} e p) d =
      ap (insert_by less _) (sort_by-perm p d.1) ∙ ap (λ a. insert_by less a (sort_by less l₂)) e
  sort_by-perm (Permᴰ.swap {a = a} {b = b} {l = l} e f) d =
      insert_by_comm less o a b (sort_by less l) d.0.0 ∙ λ i.
      insert_by less (f i) (insert_by less (e i) (sort_by less l))
  sort_by-perm (Permᴰ.trans p q) d = sort_by-perm p d ∙ sort_by-perm q (IsDistinct-perm less p d)
