-- ===== src/Api/Jwt.antt =====
-- internal/api/roles.go: rolesFromJWT, which authenticates a bearer token and takes its roles.
-- github.com/golang-jwt/jwt, encoding/pem and crypto/x509 are parameters. The state is the cache of keys
-- of the server, `none` where it is nil.
pub mod Keys
pub mod Sound
pub mod Access
use evidra_gitops.Base.{
  ℕ, String, Bool, true, false, not, ◌&&◌, ◌||◌, Option, none, some, List, [], ◌∷◌, ◌==◌,
  if◌then◌else◌, trim_space,
}
use evidra_gitops.Base.Dict.{Dict, lookup}
use evidra_gitops.Value.{Value}
use evidra_gitops.Result.{Error, Result, ok, err, other}
use evidra_gitops.Event.{extension_string}
use evidra_gitops.Api.{Request}
use evidra_gitops.Api.Auth.{Crypto, behind_scheme}
use evidra_gitops.Api.Defaults.{JwtPolicy, extract_claim_roles}
use evidra_gitops.Api.Jwks.{RsaKey, Fetch, KeyLibrary, JwksKeyCache, resolve_key}

-- jwt.Token; `claims` is `none` where they are no jwt.MapClaims.
pub record Token : Type 0 where
  pub alg : String
  pub header : Dict Value
  pub claims : Option (Dict Value)
  pub valid : Bool

-- What the function that jwt.Parse is given returns.
pub data Key : Type 0 where
  secret : String → Key
  rsa : RsaKey → Key

-- The function that jwt.Parse is given.
abbrev pub KeyFunc : Type 0
KeyFunc = Token → Option JwksKeyCache → Result Key × Option JwksKeyCache

pub record JwtLibrary : Type 0 where
  pub parse : String → KeyFunc → Option JwksKeyCache → Result (Option Token) × Option JwksKeyCache
  -- the names of SigningMethodHS256 and SigningMethodRS256
  pub hs256 : String
  pub rs256 : String
  pub verify_issuer : Dict Value → String → Bool
  pub verify_audience : Dict Value → String → Bool
  -- at the `Unix()` of a time
  pub verify_expires_at : Dict Value → ℕ → Bool
  -- `fmt.Sprintf` under "%v" of what a map has under a key
  pub print_value : Option Value → String
  pub pem_decode : String → Option String
  -- x509.ParsePKIXPublicKey; `none` is a key that is not RSA
  pub parse_pkix : String → Result (Option RsaKey)

-- The times and the requests of one authentication.
pub record Moment : Type 0 where
  pub now : ℕ
  pub first : Fetch
  pub second : Fetch
  pub later : ℕ

-- bearerToken
unfoldable pub bearer_token : String → String
bearer_token header =
    if trim_space header == ""
    then ""
    else elim (behind_scheme b' ' "Bearer" (trim_space header)) [ none ↦ "" | some token ↦ token ]

unfoldable pub rsa_or_err : Result (Option RsaKey) → Result RsaKey
rsa_or_err (err failure) = err failure
rsa_or_err (ok none) = err (other "rs256 public key is not rsa")
rsa_or_err (ok (some key)) = ok key

-- parseRSAPublicKeyPEM
unfoldable pub parse_rsa_public_key_pem : JwtLibrary → String → Result RsaKey
unfolding rsa_or_err
parse_rsa_public_key_pem j raw = elim (j.pem_decode raw) [
  | none ↦ err (other "invalid rs256 public key pem")
  | some block ↦ rsa_or_err (j.parse_pkix block)
]

abbrev pub as_rsa : Result RsaKey → Result Key
as_rsa (err failure) = err failure
as_rsa (ok key) = ok (rsa key)

unfoldable pub kid_of : JwtLibrary → Token → String
kid_of j token = trim_space (j.print_value (lookup "kid" token.header))

-- resolveJWTKeyFromJWKS
unfoldable pub resolve_jwt_key_from_jwks : KeyLibrary → JwtLibrary → Moment → KeyFunc
resolve_jwt_key_from_jwks l j at token none = (err (other "jwks cache not configured"), none)
resolve_jwt_key_from_jwks l j at token (some c) =
    if kid_of j token == ""
    then (err (other "jwt token missing kid header"), some c)
    else (let (resolved, after) = resolve_key l at.now at.first at.second (kid_of j token) c in
        (as_rsa resolved, some after))

unfoldable pub hs256_key : JwtPolicy → Result Key
hs256_key policy =
    if trim_space policy.hs256_secret == ""
    then err (other "hs256 secret not configured")
    else ok (secret (trim_space policy.hs256_secret))

unfoldable pub pem_key : JwtLibrary → JwtPolicy → Result Key
pem_key j policy =
    if trim_space policy.rs256_public_key_pem == ""
    then err (other "rs256 public key not configured")
    else as_rsa (parse_rsa_public_key_pem j (trim_space policy.rs256_public_key_pem))

-- The function that rolesFromJWT gives to jwt.Parse.
unfoldable pub jwt_key : KeyLibrary → JwtLibrary → JwtPolicy → Moment → KeyFunc
jwt_key l j policy at token cache =
    if token.alg == j.hs256
    then (hs256_key policy, cache)
    else if token.alg == j.rs256
    then if trim_space policy.jwks_url == ""
      then (pem_key j policy, cache)
      else resolve_jwt_key_from_jwks l j at token cache
    else (err (other "unsupported jwt signing algorithm"), cache)

abbrev pub checked_roles : String → List String → Result (String × List String)
checked_roles subject [] = err (other "missing jwt roles")
checked_roles subject (role ∷ roles) = ok (subject, role ∷ roles)

-- The checks of the claims, and the subject and the roles.
unfoldable pub roles_of_claims :
    JwtLibrary → JwtPolicy → ℕ → Dict Value → Result (String × List String)
roles_of_claims j policy later claims =
    if not (j.verify_issuer claims policy.issuer)
    then err (other "invalid jwt issuer")
    else if not (j.verify_audience claims policy.audience)
    then err (other "invalid jwt audience")
    else if not (j.verify_expires_at claims later)
    then err (other "jwt token expired")
    else checked_roles (extension_string claims "sub")
        (extract_claim_roles claims policy.roles_claim)

unfoldable pub roles_of_token :
    JwtLibrary → JwtPolicy → ℕ → Result (Option Token) → Result (String × List String)
roles_of_token j policy later (err failure) = err (other "invalid jwt token")
roles_of_token j policy later (ok none) = err (other "invalid jwt token")
roles_of_token j policy later (ok (some token)) =
    if token.valid
    then elim token.claims [
      | none ↦ err (other "invalid jwt claims")
      | some claims ↦ roles_of_claims j policy later claims
    ]
    else err (other "invalid jwt token")

-- rolesFromJWT
unfoldable pub roles_from_jwt :
    KeyLibrary
    → JwtLibrary
    → JwtPolicy
    → Moment
    → Request
    → Option JwksKeyCache
    → Result (String × List String) × Option JwksKeyCache
roles_from_jwt l j policy at r cache =
    let raw = trim_space (bearer_token (r.header "Authorization")) in
    if raw == ""
    then (err (other "missing bearer token"), cache)
    else (let (parsed, after) = j.parse raw (jwt_key l j policy at) cache in
        (roles_of_token j policy at.later parsed, after))

-- The roles that resolveRoles takes from the answer; the subject goes to the audit log.
abbrev pub only_roles : Result (String × List String) → Result (List String)
only_roles (err failure) = err failure
only_roles (ok (subject, roles)) = ok roles

-- What authorization uses, with rolesFromJWT at a moment and a state of the cache.
unfoldable pub with_jwt :
    KeyLibrary → JwtLibrary → JwtPolicy → Moment → Option JwksKeyCache → Crypto → Crypto
with_jwt l j policy at cache c = record c {
  roles_from_jwt = λ r. only_roles (roles_from_jwt l j policy at r cache).0;
}
