-- ===== src/Value.antt =====
-- Dynamic values, the Go type `interface{}` as the program meets it: what encoding/json decodes,
-- and what internal/ingest/argo/normalize.go puts into an event's extensions.
use evidra_gitops.Base.{ℕ, String, Bool, List, [], ◌∷◌}
use evidra_gitops.Base.Int.{ℤ}
use evidra_gitops.Base.Dict.{Dict}

-- A `float64` as the finite decimal that its JSON text denotes: digits / 10 ^ scale, with a sign.
pub record Number : Type 0 where
  pub negative : Bool
  pub digits : ℕ
  pub scale : ℕ

mutual
  pub data Value : Type 0 where
    nil : Value
    bool : Bool → Value
    float64 : Number → Value
    int : ℤ → Value
    int64 : ℤ → Value
    text : String → Value
    array : Items → Value
    object : Fields → Value
    strings : List String → Value
    string_map : List (String × String) → Value

  -- `[]interface{}`
  pub data Items : Type 0 where
    end : Items
    item : Value → Items → Items

  -- `map[string]interface{}`
  pub data Fields : Type 0 where
    done : Fields
    field : String → Value → Fields → Fields

-- The elements of an array, and the entries of an object, as lists.
unfoldable pub elements : Items → List Value
elements end = []
elements (item v vs) = v ∷ elements vs

unfoldable pub entries : Fields → Dict Value
entries done = []
entries (field k v fs) = (k, v) ∷ entries fs
