-- ===== src/Base/Order.antt =====
-- The order of texts, by `compare`: a strict total order.
use Prim.Native.Nat.{ℕ, Ordering, compare as compare_ℕ}
use Prim.Native.Char.{code}
use Prim.Native.String.{String, [], ◌∷◌, compare, then}
use Prim.Native.String.compare
use mathlib.Core.Path.{◌≡◌, refl, sym, ap, ◌∙◌}
use mathlib.Core.Bool.{true, false}
use mathlib.Core.Logic.{◌⊎◌, inl, inr}
use native.Mathlib.Omega.{arith}
use text.Mathlib.Text.{is_lt}
use text.Mathlib.TextEquality.{path_by_compare}
use text.Mathlib.TextPositions.{compare_refl}
use evidra_gitops.Base.Text.{str_ltb}
use evidra_gitops.Base.Tests.{Bool-cases}

flip : Ordering → Ordering
flip Ordering.lt = Ordering.gt
flip Ordering.eq = Ordering.eq
flip Ordering.gt = Ordering.lt

flip-compare_ℕ : (m n : ℕ) → compare_ℕ n m ≡ flip (compare_ℕ m n)
unfolding flip
flip-compare_ℕ m n = ground arith

flip-then : (o p : Ordering) → flip (then o p) ≡ then (flip o) (flip p)
unfolding flip
flip-then Ordering.lt p = refl
flip-then Ordering.eq p = refl
flip-then Ordering.gt p = refl

flip-compare : (s t : String) → compare t s ≡ flip (compare s t)
unfolding flip
flip-compare [] [] = refl
flip-compare [] (d ∷ t) = simp (compare.nil-cons, compare.cons-nil)
flip-compare (c ∷ s) [] = simp (compare.nil-cons, compare.cons-nil)
flip-compare (c ∷ s) (d ∷ t) =
    simp (compare.cons-cons, flip-then, flip-compare s t, flip-compare_ℕ (code c) (code d))

then_lt_trans :
    (a b c : ℕ) (o p q : Ordering)
    → (o ≡ Ordering.lt → p ≡ Ordering.lt → q ≡ Ordering.lt)
    → then (compare_ℕ a b) o ≡ Ordering.lt
    → then (compare_ℕ b c) p ≡ Ordering.lt
    → then (compare_ℕ a c) q ≡ Ordering.lt
then_lt_trans a b c o p q h x y = ground arith

lt≢gt : Ordering.lt ≡ Ordering.gt → ⊥
lt≢gt e = cc

true≢false : true ≡ false → ⊥
true≢false e = cc

compare_lt_trans :
    (s t u : String)
    → compare s t ≡ Ordering.lt
    → compare t u ≡ Ordering.lt
    → compare s u ≡ Ordering.lt
compare_lt_trans [] [] u x y = y
compare_lt_trans s (d ∷ t) [] x y = absurd (lt≢gt (sym y ∙ compare.cons-nil d t))
compare_lt_trans (c ∷ s) [] u x y = absurd (lt≢gt (sym x ∙ compare.cons-nil c s))
compare_lt_trans [] (d ∷ t) (e ∷ u) x y = compare.nil-cons e u
compare_lt_trans (c ∷ s) (d ∷ t) (e ∷ u) x y = rw compare.cons-cons (
    then_lt_trans (code c) (code d) (code e) (compare s t) (compare t u) (compare s u)
      (compare_lt_trans s t u) (sym (compare.cons-cons c d s t) ∙ x)
      (sym (compare.cons-cons d e t u) ∙ y))

is_lt→lt : (o : Ordering) → is_lt o ≡ true → o ≡ Ordering.lt
is_lt→lt o h = ground arith

pub str_ltb_irrefl : (s : String) → str_ltb s s ≡ false
str_ltb_irrefl s = rw compare_refl

pub str_ltb_trans : (s t u : String) → str_ltb s t ≡ true → str_ltb t u ≡ true → str_ltb s u ≡ true
str_ltb_trans s t u x y =
    rw (compare_lt_trans s t u (is_lt→lt (compare s t) x) (is_lt→lt (compare t u) y))

-- Two texts that are not in order one way are equal or in order the other way.
pub str_ltb_total : (s t : String) → str_ltb s t ≡ false → (s ≡ t) ⊎ (str_ltb t s ≡ true)
unfolding flip
str_ltb_total s t h = by_order (compare s t) refl
  where
    by_order : (o : Ordering) → compare s t ≡ o → (s ≡ t) ⊎ (str_ltb t s ≡ true)
    by_order Ordering.lt e = absurd (true≢false (sym (ap is_lt e) ∙ h))
    by_order Ordering.eq e = inl (path_by_compare s t e)
    by_order Ordering.gt e = inr (ap is_lt (flip-compare s t ∙ ap flip e))

pub str_ltb_asymm : (s t : String) → str_ltb s t ≡ true → str_ltb t s ≡ false
str_ltb_asymm s t h = elim (Bool-cases (str_ltb t s)) [
  | inl back ↦ absurd (true≢false (sym (str_ltb_trans s t s h back) ∙ str_ltb_irrefl s))
  | inr e ↦ e
]

pub str_ltb_weak :
    (s t u : String) → str_ltb s t ≡ false → str_ltb t u ≡ false → str_ltb s u ≡ false
str_ltb_weak s t u x y = elim (str_ltb_total s t x) [
  | inl same ↦ rw same y
  | inr t_first ↦ elim (str_ltb_total t u y) [
    | inl same ↦ rw (← same) x
    | inr u_first ↦ str_ltb_asymm u s (str_ltb_trans u t s u_first t_first)
  ]
]
