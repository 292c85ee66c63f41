-- ===== src/Result.antt =====
-- The errors that the packages pass to one another, and results that may be errors.
-- internal/store/store.go, internal/app/changes.go
use evidra_gitops.Base.{String, ◌≡◌, ◌⊎◌, inl, inr, refl}

pub data Error : Type 0 where
  not_found conflict invalid_input append_only invalid_cursor : Error
  -- `app.ErrInvalidChangeCursor`
  invalid_change_cursor : Error
  -- `api.errRateLimited`
  rate_limited : Error
  -- any error without a name, by its message
  other : String → Error

pub data Result {ℓ} (A : Type ℓ) : Type ℓ where
  ok : A → Result A
  err : Error → Result A

infixl 10 ◌>>=◌
abbrev pub ◌>>=◌ {ℓ κ} : {A : Type ℓ} {B : Type κ} → Result A → (A → Result B) → Result B
ok a >>= f = f a
err e >>= f = err e

pub Result-cases {ℓ} :
    {A : Type ℓ} (r : Result A) → ((a : A) × (r ≡ ok a)) ⊎ ((e : Error) × (r ≡ err e))
Result-cases (ok a) = inl (a, refl)
Result-cases (err e) = inr (e, refl)
