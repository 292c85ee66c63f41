-- ===== src/Api/Jwt/Access.antt =====
-- Reads, exports and ingests of internal/api/auth.go where internal/api/roles.go takes the roles from JWTs.
use evidra_gitops.Base.{
  ℕ, String, ◌≡◌, true, Option, none, some, List, [], ◌∷◌, arith, inl, inr, trim_space,
}
use evidra_gitops.Result.{Result, ok, err, Result-cases}
use evidra_gitops.Api.{Request}
use evidra_gitops.Api.Limiter.{AuthRateLimiter}
use evidra_gitops.Api.Auth.{
  Crypto, AuthConfig, resolve_roles, has_role, authorize_read, authorize_export, authorize_ingest,
}
use evidra_gitops.Api.Auth.Soundness.{
  IsInRole, authorize_read_sound, authorize_export_sound, authorize_ingest_sound,
}
use evidra_gitops.Api.Defaults.{JwtPolicy}
use evidra_gitops.Api.Jwks.{KeyLibrary, JwksKeyCache}
use evidra_gitops.Api.Jwt.{
  Key, JwtLibrary, Moment, bearer_token, roles_from_jwt, only_roles, with_jwt,
}
use evidra_gitops.Api.Jwt.Sound.{ChecksSignatures, IsAuthentic, roles_from_jwt_sound}

only_roles_ok :
    (answer : Result (String × List String)) (roles : List String)
    → only_roles answer ≡ ok roles
    → (subject : String) × (answer ≡ ok (subject, roles))
only_roles_ok (err failure) roles h = absurd (ground arith)
only_roles_ok (ok (subject, named)) roles h = (subject, ground arith)

-- The bearer token of a request is authentic and names one of the roles.
unfoldable pub IsAuthorized :
    KeyLibrary
    → JwtLibrary
    → (String → Key → Type 0)
    → JwtPolicy
    → Moment
    → Option JwksKeyCache
    → Request
    → List String
    → Type 0
IsAuthorized l j signed policy at cache r allowed =
    (roles : List String) × IsAuthentic j signed policy at.later
      (trim_space (bearer_token (r.header "Authorization"))) roles
      (roles_from_jwt l j policy at r cache).1
    × (has_role roles allowed ≡ true)

-- The three authorizations, and the roles that each asks for.
pub data Action : Type 0 where
  reading exporting ingesting : Action

unfoldable pub roles_for : Action → List String
roles_for reading = "reader" ∷ "exporter" ∷ "admin" ∷ []
roles_for exporting = "exporter" ∷ "admin" ∷ []
roles_for ingesting = "admin" ∷ []

-- The answer of an authorization; the body counts for an ingest only.
unfoldable pub authorize_action :
    Action → Crypto → AuthConfig → ℕ → String → Request → Option AuthRateLimiter → Result (Unit {0})
authorize_action reading c auth now_window body r l = (authorize_read c auth now_window r l).0
authorize_action exporting c auth now_window body r l = (authorize_export c auth now_window r l).0
authorize_action ingesting c auth now_window body r l =
    (authorize_ingest c auth now_window body r l).0

action-IsInRole :
    (action : Action) (c : Crypto) (auth : AuthConfig) (now_window : ℕ) (body : String)
    (r : Request) (l : Option AuthRateLimiter)
    → authorize_action action c auth now_window body r l ≡ ok tt
    → IsInRole c auth r (roles_for action)
unfolding authorize_action roles_for
action-IsInRole reading c auth now_window body r l h =
    (authorize_read_sound c auth r now_window l h).0
action-IsInRole exporting c auth now_window body r l h =
    (authorize_export_sound c auth r now_window l h).0
action-IsInRole ingesting c auth now_window body r l h =
    (authorize_ingest_sound c auth r now_window body l h).0

module _ (l : KeyLibrary) (j : JwtLibrary) (signed : String → Key → Type 0)
    (checks : ChecksSignatures j signed) (policy : JwtPolicy) (at : Moment)
    (cache : Option JwksKeyCache) (c : Crypto) (auth : AuthConfig) (r : Request) where
  resolved :
      (enforced : Option (List String))
      → auth.jwt_enabled ≡ true
      → resolve_roles (with_jwt l j policy at cache c) auth r ≡ ok enforced
      → (roles : List String) × (enforced ≡ some roles)
        × (only_roles (roles_from_jwt l j policy at r cache).0 ≡ ok roles)
  unfolding resolve_roles with_jwt
  resolved enforced enabled h =
      elim (Result-cases (only_roles (roles_from_jwt l j policy at r cache).0)) [
        | inl (roles, taken) ↦ (roles, ground arith, taken)
        | inr (failure, failed) ↦ absurd (ground arith)
      ]

  role_is_shown :
      (allowed : List String)
      → auth.jwt_enabled ≡ true
      → IsInRole (with_jwt l j policy at cache c) auth r allowed
      → IsAuthorized l j signed policy at cache r allowed
  unfolding IsInRole IsAuthorized
  role_is_shown allowed enabled (inl free) =
      let (roles, named, taken) = resolved none enabled free in absurd (ground arith)
  role_is_shown allowed enabled (inr (roles, taken, has)) =
      let (found, named, answer) = resolved (some roles) enabled taken in
      let (subject, full) = only_roles_ok _ roles (ground arith) in
      (roles, roles_from_jwt_sound l j signed checks policy at r cache subject roles full, has)

  -- Where JWTs are enabled and jwt.Parse checks signatures, a request is let through only with a bearer token
  -- that is signed with a configured key, whose issuer, audience and expiry are verified, and whose
  -- claim names a role: of a reader, an exporter or an administrator for a read; of one of the last two
  -- for an export; of an administrator for an ingest.
  pub authorize_action-IsAuthorized :
      (action : Action) (now_window : ℕ) (limiter : Option AuthRateLimiter) (body : String)
      → auth.jwt_enabled ≡ true
      → authorize_action action (with_jwt l j policy at cache c) auth now_window body r limiter
        ≡ ok tt
      → IsAuthorized l j signed policy at cache r (roles_for action)
  authorize_action-IsAuthorized action now_window limiter body enabled h =
      role_is_shown (roles_for action) enabled
        (action-IsInRole action _ auth now_window body r limiter h)
