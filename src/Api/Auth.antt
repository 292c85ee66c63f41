-- ===== src/Api/Auth.antt =====
-- internal/api/auth.go, and of internal/api/roles.go the roles of a header: authorizeRead,
-- authorizeExport and authorizeIngest. What rolesFromJWT returns is a parameter here, which Api/Jwt.antt
-- fills in, and HMAC-SHA256 is one. The audit log is left out.
pub mod Soundness
pub mod Shown
use evidra_gitops.Base.{
  ℕ, String, Bool, true, false, not, ◌&&◌, ◌||◌, Option, none, some, List, [], ◌∷◌, ◌==◌,
  if◌then◌else◌, trim_space, to_lower, equal_fold, split_once, any, select, map, split_all,
}
use evidra_gitops.Result.{Error, Result, ok, err, other, rate_limited, ◌>>=◌}
use evidra_gitops.Api.{Request}
use evidra_gitops.Api.Limiter.{AuthRateLimiter, allow}

pub record HmacPolicy : Type 0 where
  pub header : String
  pub secret : String

-- AuthConfig, the part that authorization reads
pub record AuthConfig : Type 0 where
  pub read_token : String
  pub ingest_token : String
  pub generic_webhook : HmacPolicy
  pub oidc_enabled : Bool
  pub roles_header : String
  pub jwt_enabled : Bool

-- What the handlers take from libraries.
pub record Crypto : Type 0 where
  -- `hex.DecodeString`
  pub decode_hex : String → Option String
  -- HMAC-SHA256 of a body under a secret
  pub hmac_sha256 : String → String → String
  pub roles_from_jwt : Request → Result (List String)

-- The text behind the scheme of a header, if the scheme is the given one.
unfoldable pub behind_scheme : ℕ → String → String → Option String
behind_scheme sep scheme header = elim (split_once sep header) [
  | none ↦ none
  | some (front, back) ↦ if equal_fold front scheme then some (trim_space back) else none
]

-- matchBearer
unfoldable pub match_bearer : String → String → Bool
match_bearer header expected =
    if trim_space header == ""
    then false
    else elim (behind_scheme b' ' "Bearer" (trim_space header)) [
      | none ↦ false
      | some token ↦ token == expected
    ]

-- validWebhookSignature
unfoldable pub valid_webhook_signature : Crypto → String → String → String → Bool
valid_webhook_signature c secret body header =
    if trim_space header == ""
    then false
    else elim (behind_scheme b'=' "sha256" (trim_space header)) [
      | none ↦ false
      | some hex ↦ elim (c.decode_hex hex) [
        | none ↦ false
        | some provided ↦ c.hmac_sha256 secret body == provided
      ]
    ]

-- Each part without outer white space, in lower case.
unfoldable pub lowered : List String → List String
lowered [] = []
lowered (part ∷ parts) = to_lower (trim_space part) ∷ lowered parts

-- The parts of a header with roles that are not blank, in lower case.
unfoldable pub header_roles : String → List String
unfolding lowered
header_roles header = select (λ role. not (role == "")) (lowered (split_all b',' header))

unfoldable pub or_missing : List String → Result (List String)
or_missing [] = err (other "missing oidc roles")
or_missing (role ∷ roles) = ok (role ∷ roles)

-- rolesFromHeader
unfoldable pub roles_from_header : AuthConfig → Request → Result (List String)
roles_from_header auth r =
    let header = trim_space (r.header auth.roles_header) in
    if header == "" then err (other "missing oidc roles") else or_missing (header_roles header)

-- resolveRoles: `none` where no roles are enforced
unfoldable pub resolve_roles : Crypto → AuthConfig → Request → Result (Option (List String))
resolve_roles c auth r =
    if auth.jwt_enabled
    then (do roles ← c.roles_from_jwt r; ok (some roles))
    else if auth.oidc_enabled
    then (do roles ← roles_from_header auth r; ok (some roles))
    else ok none

unfoldable pub has_role : List String → List String → Bool
has_role roles allowed =
    any (λ needed. any (λ role. to_lower (trim_space role) == to_lower (trim_space needed)) roles)
      allowed

-- authorizeRoles
unfoldable pub authorize_roles : Crypto → AuthConfig → List String → Request → Result (Unit {0})
authorize_roles c auth allowed r = elim (resolve_roles c auth r) [
  | err failure ↦ err failure
  | ok enforced ↦ elim enforced [
    | none ↦ ok tt
    | some roles ↦ if has_role roles allowed then ok tt else err (other "insufficient role")
  ]
]

-- A bearer token is asked for if one is configured.
unfoldable pub bearer_passes : String → Request → Bool
bearer_passes token r = token == "" || match_bearer (r.header "Authorization") token

-- authorizeReadToken
unfoldable pub authorize_read_token : AuthConfig → Request → Result (Unit {0})
authorize_read_token auth r =
    if bearer_passes (trim_space auth.read_token) r
    then ok tt
    else err (other "missing or invalid bearer token")

-- The token of an ingest: its own, else that of reads.
unfoldable pub ingest_bearer : AuthConfig → String
ingest_bearer auth =
    if trim_space auth.ingest_token == ""
    then trim_space auth.read_token
    else trim_space auth.ingest_token

-- A signature is asked for if a secret is configured.
unfoldable pub signature_passes : Crypto → AuthConfig → String → Request → Bool
signature_passes c auth body r =
    trim_space auth.generic_webhook.secret == ""
    || valid_webhook_signature c auth.generic_webhook.secret body
        (trim_space (r.header auth.generic_webhook.header))

-- authorizeIngest behind its rate limit and its roles
unfoldable pub authorize_ingest_token : Crypto → AuthConfig → String → Request → Result (Unit {0})
authorize_ingest_token c auth body r =
    if bearer_passes (ingest_bearer auth) r
    then if signature_passes c auth body r then ok tt else err (other "invalid webhook signature")
    else err (other "missing or invalid bearer token")

-- The rate limit in front of a check; a nil limiter is `none`.
unfoldable pub limited :
    ℕ
    → Request
    → String
    → Result (Unit {0})
    → Option AuthRateLimiter
    → Result (Unit {0}) × Option AuthRateLimiter
limited now_window r action checked none = (checked, none)
limited now_window r action checked (some l) =
    let (allowed, after) = allow now_window r.remote_ip action l in
    (if allowed then checked else err rate_limited, some after)

module _ (c : Crypto) (auth : AuthConfig) where
  unfoldable pub read_checks : Request → Result (Unit {0})
  read_checks r = authorize_roles c auth ("reader" ∷ "exporter" ∷ "admin" ∷ []) r >>= λ _.
      authorize_read_token auth r

  unfoldable pub export_checks : Request → Result (Unit {0})
  export_checks r =
      authorize_roles c auth ("exporter" ∷ "admin" ∷ []) r >>= λ _. authorize_read_token auth r

  unfoldable pub ingest_checks : String → Request → Result (Unit {0})
  ingest_checks body r =
      authorize_roles c auth ("admin" ∷ []) r >>= λ _. authorize_ingest_token c auth body r

  -- authorizeRead
  unfoldable pub authorize_read :
      ℕ → Request → Option AuthRateLimiter → Result (Unit {0}) × Option AuthRateLimiter
  authorize_read now_window r l = limited now_window r "read" (read_checks r) l

  -- authorizeExport
  unfoldable pub authorize_export :
      ℕ → Request → Option AuthRateLimiter → Result (Unit {0}) × Option AuthRateLimiter
  authorize_export now_window r l = limited now_window r "export" (export_checks r) l

  -- authorizeIngest
  unfoldable pub authorize_ingest :
      ℕ → String → Request → Option AuthRateLimiter → Result (Unit {0}) × Option AuthRateLimiter
  authorize_ingest now_window body r l = limited now_window r "ingest" (ingest_checks body r) l
