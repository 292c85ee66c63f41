-- ===== src/Base/Dict.antt =====
-- A Go map with string keys, as an association list. Its order is one order of iteration.
use Prim.Native.String.{String}
use mathlib.Core.Path.{◌≡◌, refl}
use mathlib.Core.Option.{Option, none, some}
use mathlib.Core.List.{List, [], ◌∷◌}
use native.Mathlib.Omega.{arith}
use text.Mathlib.Text.{◌==◌}
use text.Mathlib.TextEquality.{eq_iff}
use text.Mathlib.TextPositions.{eq_refl}
use evidra_gitops.Base.Tests.{if◌then◌else◌}
use evidra_gitops.Base.Lists.{All}

abbrev pub Dict {ℓ} : Type ℓ → Type ℓ
Dict V = List (String × V)

module _ {ℓ} {V : Type ℓ} where
  -- `m[k]`, with its `ok`
  unfoldable pub lookup : String → Dict V → Option V
  lookup key [] = none
  lookup key ((j, v) ∷ m) = let behind = lookup key m in if j == key then some v else behind

  -- `m[k] = v`: a new key goes behind the others
  unfoldable pub insert : String → V → Dict V → Dict V
  insert key value [] = (key, value) ∷ []
  insert key value ((j, old) ∷ m) =
      let behind = insert key value m in if j == key then (key, value) ∷ m else (j, old) ∷ behind

  -- Each value with its key, in the order of iteration.
  unfoldable pub values : Dict V → List V
  values [] = []
  values ((k, v) ∷ m) = v ∷ values m

  abbrev pub NodupKeys : Dict V → Type ℓ
  NodupKeys [] = Unit
  NodupKeys ((k, v) ∷ m) = (lookup k m ≡ none) × NodupKeys m

  -- The written key is found with its new value, each other key as before.
  pub lookup-insert :
      (k j : String) (v : V) (m : Dict V)
      → lookup j (insert k v m) ≡ (if k == j then some v else lookup j m)
  unfolding insert lookup
  lookup-insert k j v [] = refl
  lookup-insert k j v (entry ∷ m) =
      ground (lookup-insert k j v m, eq_iff entry.0 j, eq_iff entry.0 k, eq_iff k j, arith)

  pub insert-NodupKeys : (k : String) (v : V) (m : Dict V) → NodupKeys m → NodupKeys (insert k v m)
  unfolding lookup insert
  insert-NodupKeys k v [] u = (refl, tt)
  insert-NodupKeys k v ((j, w) ∷ m) (fresh, u) =
      ground (arith, eq_iff j k, eq_iff k j, insert-NodupKeys k v m u, lookup-insert k j v m)

  tail_found :
      (k : String) (v : V) (m : Dict V) (id : String) (w : V)
      → lookup k m ≡ none
      → lookup id m ≡ some w
      → lookup id ((k, v) ∷ m) ≡ some w
  unfolding lookup
  tail_found k v m id w fresh found = ground (arith, eq_iff k id)

  pub lookup_head : (k : String) (v : V) (m : Dict V) → lookup k ((k, v) ∷ m) ≡ some v
  unfolding lookup
  lookup_head k v m = rw eq_refl

  -- What holds of each value that is found holds of all values.
  pub All-values {κ} :
      (P : V → Type κ) (m : Dict V)
      → NodupKeys m
      → ((k : String) (v : V) → lookup k m ≡ some v → P v)
      → All P (values m)
  unfolding values
  All-values P [] u h = tt
  All-values P ((k, v) ∷ m) (fresh, u) h = (
    h k v (lookup_head k v m),
    All-values P m u (λ id w found. h id w (tail_found k v m id w fresh found)),
  )
