-- ===== src/Api/Auth/Soundness.antt =====
-- What a request has shown that internal/api/auth.go lets pass.
use evidra_gitops.Base.{
  ℕ, String, ◌≡◌, ◌⊎◌, ap, ◌∙◌, true, Option, none, some, List, [], ◌∷◌, arith, inl, inr,
  Option-cases, trim_space,
}
use evidra_gitops.Result.{Result, ok, Result-cases, ◌>>=◌}
use evidra_gitops.Api.{Request}
use evidra_gitops.Api.Limiter.{AuthRateLimiter}
use evidra_gitops.Api.Auth.{
  Crypto, AuthConfig, resolve_roles, has_role, authorize_roles, bearer_passes, authorize_read_token,
  ingest_bearer, signature_passes, authorize_ingest_token, limited, read_checks, ingest_checks,
  authorize_read, authorize_ingest, authorize_export, export_checks,
}

limited_passes :
    (now_window : ℕ) (r : Request) (action : String) (checked : Result (Unit {0}))
    (l : Option AuthRateLimiter)
    → (limited now_window r action checked l).0 ≡ ok tt
    → checked ≡ ok tt
unfolding limited
limited_passes now_window r action checked none h = h
limited_passes now_window r action checked (some l) h = ground arith

both_pass : (a b : Result (Unit {0})) → (a >>= λ _. b) ≡ ok tt → (a ≡ ok tt) × (b ≡ ok tt)
both_pass a b h = ground arith

module _ (c : Crypto) (auth : AuthConfig) (r : Request) where
  -- No roles are enforced, or the request has one of the roles.
  unfoldable pub IsInRole : List String → Type 0
  IsInRole allowed =
      (resolve_roles c auth r ≡ ok none)
      ⊎ ((roles : List String) × (resolve_roles c auth r ≡ ok (some roles))
          × (has_role roles allowed ≡ true))

  authorize_roles-IsInRole :
      (allowed : List String) → authorize_roles c auth allowed r ≡ ok tt → IsInRole allowed
  unfolding authorize_roles IsInRole
  authorize_roles-IsInRole allowed h = elim (Result-cases (resolve_roles c auth r)) [
    | inr (failure, e) ↦ absurd (ground arith)
    | inl (enforced, e) ↦ elim (Option-cases enforced) [
      | inl free ↦ inl (e ∙ ap ok free)
      | inr (roles, named) ↦ inr (roles, e ∙ ap ok named, ground arith)
    ]
  ]

  token_passes :
      authorize_read_token auth r ≡ ok tt → bearer_passes (trim_space auth.read_token) r ≡ true
  unfolding authorize_read_token
  token_passes h = ground arith

  -- A read passes only in the role of a reader, an exporter or an administrator, and with the
  -- configured token.
  pub authorize_read_sound :
      (now_window : ℕ) (l : Option AuthRateLimiter)
      → (authorize_read c auth now_window r l).0 ≡ ok tt
      → IsInRole ("reader" ∷ "exporter" ∷ "admin" ∷ [])
        × (bearer_passes (trim_space auth.read_token) r ≡ true)
  unfolding authorize_read read_checks
  authorize_read_sound now_window l h =
      let (roles, token) = both_pass _ _ (limited_passes now_window r "read" _ l h) in
      (authorize_roles-IsInRole _ roles, token_passes token)

  -- An export passes only in the role of an exporter or an administrator, and with the token of reads.
  pub authorize_export_sound :
      (now_window : ℕ) (l : Option AuthRateLimiter)
      → (authorize_export c auth now_window r l).0 ≡ ok tt
      → IsInRole ("exporter" ∷ "admin" ∷ []) × (bearer_passes (trim_space auth.read_token) r ≡ true)
  unfolding authorize_export export_checks
  authorize_export_sound now_window l h =
      let (roles, token) = both_pass _ _ (limited_passes now_window r "export" _ l h) in
      (authorize_roles-IsInRole _ roles, token_passes token)

  tokens_pass :
      (body : String)
      → authorize_ingest_token c auth body r ≡ ok tt
      → (bearer_passes (ingest_bearer auth) r ≡ true) × (signature_passes c auth body r ≡ true)
  unfolding authorize_ingest_token
  tokens_pass body h = ground arith

  -- An ingest passes only in the role of an administrator where roles are enforced, with the bearer
  -- token where one is configured, and with a valid signature of its body where a secret is.
  pub authorize_ingest_sound :
      (now_window : ℕ) (body : String) (l : Option AuthRateLimiter)
      → (authorize_ingest c auth now_window body r l).0 ≡ ok tt
      → IsInRole ("admin" ∷ [])
        × (bearer_passes (ingest_bearer auth) r ≡ true)
        × (signature_passes c auth body r ≡ true)
  unfolding authorize_ingest ingest_checks
  authorize_ingest_sound now_window body l h =
      let (roles, tokens) = both_pass _ _ (limited_passes now_window r "ingest" _ l h) in
      let (bearer, signature) = tokens_pass body tokens in
      (authorize_roles-IsInRole _ roles, bearer, signature)
