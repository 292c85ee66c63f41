-- ===== src/Base/Keyed.antt =====
-- Maps whose values carry their own keys: the values are told apart.
use mathlib.Core.Path.{◌≡◌}
use mathlib.Core.Bool.{Bool, true, false}
use mathlib.Core.Option.{some, none}
use mathlib.Core.List.{[], ◌∷◌}
use Prim.Native.String.{String}
use native.Mathlib.Omega.{arith}
use text.Mathlib.Text.{◌==◌}
use text.Mathlib.TextEquality.{eq_iff}
use text.Mathlib.TextPositions.{eq_refl}
use evidra_gitops.Base.Lists.{All}
use evidra_gitops.Base.Dict.{Dict, lookup, values, NodupKeys}
use evidra_gitops.Base.Sort.Distinct.{differ, IsDistinct}

absent_cons :
    {V : Type 0} (j k : String) (v : V) (m : Dict V)
    → lookup j ((k, v) ∷ m) ≡ none
    → ((k == j) ≡ false) × (lookup j m ≡ none)
unfolding lookup
absent_cons j k v m h = ground arith

module _ {V : Type 0} (name : V → String) where
  -- Every entry stands under the name of its value.
  unfoldable pub IsKeyed : Dict V → Type 0
  IsKeyed m = (k : String) (v : V) → lookup k m ≡ some v → name v ≡ k

  IsKeyed-tail :
      (k : String) (v : V) (m : Dict V) → lookup k m ≡ none → IsKeyed ((k, v) ∷ m) → IsKeyed m
  unfolding IsKeyed lookup
  IsKeyed-tail k v m fresh h j w found = h j w (ground (arith, eq_iff k j, found))

  IsKeyed-head : (k : String) (v : V) (m : Dict V) → IsKeyed ((k, v) ∷ m) → name v ≡ k
  unfolding IsKeyed lookup
  IsKeyed-head k v m h = h k v (rw eq_refl)

  other_name : (j k : String) (v : V) → (k == j) ≡ false → name v ≡ k → (j == name v) ≡ false
  other_name j k v ne same = ground (arith, eq_iff j (name v), eq_iff k j)

  module _ (less : V → V → Bool)
      (apart : (a b : V) → (name a == name b) ≡ false → differ less a b ≡ true) where
    -- A key that is not there is no value's name.
    differs_from_All :
        (x : V) (m : Dict V)
        → lookup (name x) m ≡ none
        → NodupKeys m
        → IsKeyed m
        → All (λ y. differ less x y ≡ true) (values m)
    unfolding values
    differs_from_All x [] absent u h = tt
    differs_from_All x ((k, v) ∷ m) absent (fresh, u) h =
        let (other, behind) = absent_cons (name x) k v m absent in
        (
          apart x v (other_name (name x) k v other (IsKeyed-head k v m h)),
          differs_from_All x m behind u (IsKeyed-tail k v m fresh h),
        )

    pub values-IsDistinct : (m : Dict V) → NodupKeys m → IsKeyed m → IsDistinct less (values m)
    unfolding values
    values-IsDistinct [] u h = tt
    values-IsDistinct ((k, v) ∷ m) (fresh, u) h =
        let tail = IsKeyed-tail k v m fresh h in
        (differs_from_All v m (rw (IsKeyed-head k v m h) fresh) u tail, values-IsDistinct m u tail)
