-- ===== src/Config/Access.antt =====
-- A server that internal/bootstrap/runtime.go starts with a configuration of internal/config/config.go:
-- what its readers have shown.
use evidra_gitops.Base.{
  ℕ, String, ◌≡◌, ◌⊎◌, true, false, not, ◌||◌, Option, none, some, List, [], ◌∷◌, arith, Bool-cases,
  inl, inr, trim_space,
}
use evidra_gitops.Result.{Result, ok, err, ◌>>=◌}
use evidra_gitops.Api.{Request}
use evidra_gitops.Api.Limiter.{AuthRateLimiter}
use evidra_gitops.Api.Auth.{
  Crypto, AuthConfig, resolve_roles, has_role, authorize_read, bearer_passes, match_bearer,
  roles_from_header,
}
use evidra_gitops.Api.Auth.Soundness.{IsInRole, authorize_read_sound}
use evidra_gitops.Api.Defaults.{with_auth_defaults}
use evidra_gitops.Config.{Config, read_auth_configured, validate, is_blank}
use evidra_gitops.Config.Sound.{validate_sound}

-- The AuthConfig that NewRuntime makes, with the defaults of NewServerWithOptions.
unfoldable pub server_auth : Config → AuthConfig
server_auth c = with_auth_defaults (record {
  read_token = c.auth.read_token;
  ingest_token = c.auth.ingest_token;
  generic_webhook = record { header = ""; secret = c.auth.webhook_secret };
  oidc_enabled = c.auth.oidc_enabled;
  roles_header = c.auth.roles_header;
  jwt_enabled = c.auth.jwt_enabled;
})

module _ (crypto : Crypto) (auth : AuthConfig) (r : Request) where
  -- The request has shown a role, or the token of reads.
  unfoldable pub HasShown : Type 0
  HasShown =
      ((roles : List String) × (resolve_roles crypto auth r ≡ ok (some roles))
        × (has_role roles ("reader" ∷ "exporter" ∷ "admin" ∷ []) ≡ true))
      ⊎ (match_bearer (r.header "Authorization") (trim_space auth.read_token) ≡ true)

  wrapped : (result : Result (List String)) → ¬ ((do roles ← result; ok (some roles)) ≡ ok none)
  wrapped (ok roles) h = absurd (ground arith)
  wrapped (err failure) h = absurd (ground arith)

  open_server :
      resolve_roles crypto auth r ≡ ok none → (auth.jwt_enabled || auth.oidc_enabled) ≡ false
  unfolding resolve_roles roles_from_header
  open_server h = elim (Bool-cases auth.jwt_enabled) [
    | inl jwt ↦ absurd (wrapped (crypto.roles_from_jwt r) (rw jwt at h))
    | inr no_jwt ↦ elim (Bool-cases auth.oidc_enabled) [
      | inl oidc ↦ absurd (wrapped (roles_from_header auth r) (rw oidc at rw no_jwt at h))
      | inr no_oidc ↦ rw (no_jwt, no_oidc)
    ]
  ]

  token_shown :
      is_blank auth.read_token ≡ false
      → bearer_passes (trim_space auth.read_token) r ≡ true
      → match_bearer (r.header "Authorization") (trim_space auth.read_token) ≡ true
  unfolding bearer_passes
  token_shown written passes = rw written at passes

  shown :
      (not (is_blank auth.read_token) || auth.oidc_enabled || auth.jwt_enabled) ≡ true
      → IsInRole crypto auth r ("reader" ∷ "exporter" ∷ "admin" ∷ [])
      → bearer_passes (trim_space auth.read_token) r ≡ true
      → HasShown
  unfolding IsInRole HasShown
  shown configured (inr (roles, resolved, fits)) token = inl (roles, resolved, fits)
  shown configured (inl free) token =
      inr (token_shown (ground (arith, configured, open_server free)) token)

-- A server that starts with a validated configuration outside the insecure mode is not open: a read that
-- it lets pass has shown one of the roles of reads, or the token of reads.
pub authorize_read-validated :
    (crypto : Crypto) (c : Config) (now_window : ℕ) (r : Request) (l : Option AuthRateLimiter)
    → validate c ≡ ok tt
    → c.dev_insecure ≡ false
    → (authorize_read crypto (server_auth c) now_window r l).0 ≡ ok tt
    → HasShown crypto (server_auth c) r
unfolding server_auth with_auth_defaults read_auth_configured
authorize_read-validated crypto c now_window r l valid secure passed =
    let usable = validate_sound c valid in
    let (role, token) = authorize_read_sound crypto (server_auth c) r now_window l passed in
    shown crypto (server_auth c) r (ground (arith, usable.has_read_auth, secure)) role token
