-- ===== src/Tests/Jwt.antt =====
-- The authentication of internal/api/roles.go and the cache of internal/api/jwks.go at a concrete token.
use evidra_gitops.Base.{
  ℕ, String, Bool, ◌≡◌, refl, sym, ap, ◌∙◌, true, false, Option, none, some, List, [], ◌∷◌, eqb,
  arith, inl, inr, Bool-cases, if◌then◌else◌,
}
use evidra_gitops.Base.Dict.{Dict}
use evidra_gitops.Base.Int.{pos}
use evidra_gitops.Value.{text}
use evidra_gitops.Result.{Result, ok, err, other}
use evidra_gitops.Api.{Request}
use evidra_gitops.Api.Auth.{Crypto, AuthConfig}
use evidra_gitops.Api.Defaults.{JwtPolicy}
use evidra_gitops.Api.Jwks.{
  RsaKey, JwkEntry, HttpReply, Fetch, KeyLibrary, JwksKeyCache, served_keys, is_stale, resolve_key,
}
use evidra_gitops.Api.Jwks.Rotation.{resolve_key-served, resolve_key_outage}
use evidra_gitops.Api.Jwt.{Token, Key, secret, rsa, KeyFunc, JwtLibrary, Moment, with_jwt}
use evidra_gitops.Api.Jwt.Sound.{ChecksSignatures}
use evidra_gitops.Api.Jwt.Access.{
  IsAuthorized, reading, roles_for, authorize_action, authorize_action-IsAuthorized,
}
use evidra_gitops.Tests.Kubernetes.{printed_value}

abbrev bare : Token
bare = record {
  alg = "RS256";
  header = ("kid", text "k1") ∷ [];
  claims = some (("roles", text "reader") ∷ []);
  valid = false;
}

verifies : String → Key → Bool
verifies raw (secret s) = false
verifies raw (rsa k) = eqb k.modulus 5

-- Signatures are checked by the modulus alone.
unfoldable parsed :
    String → Result Key × Option JwksKeyCache → Result (Option Token) × Option JwksKeyCache
unfolding verifies
parsed raw (err failure, c) = (err failure, c)
parsed raw (ok key, c) =
    if verifies raw key
    then (ok (some (record bare { valid = true })), c)
    else (err (other "signature"), c)

abbrev library : JwtLibrary
library = record {
  parse = λ raw f cache. parsed raw (f bare cache);
  hs256 = "HS256";
  rs256 = "RS256";
  verify_issuer = λ claims issuer. true;
  verify_audience = λ claims audience. true;
  verify_expires_at = λ claims now. true;
  print_value = printed_value;
  pem_decode = λ raw. none;
  parse_pkix = λ block. ok none;
}

-- What a parsed token has gone through.
parsed_checked :
    (raw : String) (r : Result Key × Option JwksKeyCache) (token : Token)
    (after : Option JwksKeyCache)
    → parsed raw r ≡ (ok (some token), after)
    → (record token { valid = false } ≡ bare)
      × (key : Key) × (r ≡ (ok key, after))
      × (verifies raw key ≡ true)
unfolding parsed
parsed_checked raw (err failure, c) token after h = absurd (ground arith)
parsed_checked raw (ok key, c) token after h = elim (Bool-cases (verifies raw key)) [
  | inr refused ↦ absurd (ground arith)
  | inl verified ↦
      let shape : (record bare { valid = true } ≡ token) × (c ≡ after) = ground arith in
      (
        ap (λ (t : Token). record t { valid = false }) (sym shape.0),
        key,
        ap (λ a. (ok key, a)) shape.1,
        verified,
      )
]

library-checks : ChecksSignatures library (λ raw key. verifies raw key ≡ true)
library-checks = record {
  checked = λ raw f cache after token h valid.
      let (same, key, made, verified) = parsed_checked raw (f bare cache) token after h in
      (key, ap (λ t. f t cache) same ∙ made, verified);
}

abbrev keys_library : KeyLibrary
keys_library = record { decode_bytes = λ s. some (5 ∷ []); parse_duration = λ s. none }

abbrev served : Fetch
served = record {
  at = 90;
  reply = ok (record {
    status = 200;
    document = some (record { kty = "RSA"; kid = "k1"; n = "n"; e = "e" } ∷ []);
  });
}

abbrev down : Fetch
down = record { at = 91; reply = err (other "timeout") }

abbrev key_of_five : RsaKey
key_of_five = record { modulus = 5; exponent = pos 5 }

abbrev five : Dict RsaKey
five = ("k1", key_of_five) ∷ []

abbrev old_key : RsaKey
old_key = record { modulus = 3; exponent = pos 3 }

-- A cache that is not stale at 80, and has another key.
abbrev cache : JwksKeyCache
cache = record {
  url = "https://keys";
  refresh_every = 50;
  last_refresh = 60;
  keys = ("k0", old_key) ∷ [];
}

keys_served : served_keys keys_library served.reply ≡ ok five
unfolding served_keys evidra_gitops.Api.Jwks.keys_from evidra_gitops.Api.Jwks.add_entry
    evidra_gitops.Base.to_upper evidra_gitops.Base.trim_space
    evidra_gitops.Api.Jwks.rsa_key_from_jwk evidra_gitops.Api.Jwks.checked_key
    evidra_gitops.Api.Jwks.number_from evidra_gitops.Api.Jwks.int64_of
    evidra_gitops.Base.Dict.insert
keys_served = refl

key_absent : evidra_gitops.Base.Dict.lookup "k1" cache.keys ≡ none
unfolding evidra_gitops.Base.Dict.lookup
key_absent = refl

key_present : evidra_gitops.Base.Dict.lookup "k1" five ≡ some key_of_five
unfolding evidra_gitops.Base.Dict.lookup
key_present = refl

old_present : evidra_gitops.Base.Dict.lookup "k0" cache.keys ≡ some old_key
unfolding evidra_gitops.Base.Dict.lookup
old_present = refl

resolve_key-served_example :
    (resolve_key keys_library 80 served served "k1" cache).0 ≡ ok key_of_five
resolve_key-served_example =
    resolve_key-served keys_library 80 served served "k1" cache five key_of_five keys_served
      keys_served key_present (inr key_absent)

resolve_key_outage_example : resolve_key keys_library 200 down down "k0" cache ≡ (ok old_key, cache)
resolve_key_outage_example =
    resolve_key_outage keys_library 200 down down "k0" cache (other "timeout") old_key
      (unfold served_keys in refl) old_present

abbrev policy : JwtPolicy
policy = record {
  enabled = true;
  issuer = "i";
  audience = "a";
  roles_claim = "roles";
  hs256_secret = "";
  rs256_public_key_pem = "";
  jwks_url = "https://keys";
  jwks_refresh = "";
}

abbrev moment : Moment
moment = record { now = 80; first = served; second = served; later = 95 }

abbrev crypto : Crypto
crypto = record {
  decode_hex = λ s. none;
  hmac_sha256 = λ secret body. "";
  roles_from_jwt = λ r. err (other "unused");
}

abbrev auth : AuthConfig
auth = record {
  read_token = "";
  ingest_token = "";
  generic_webhook = record { header = ""; secret = "" };
  oidc_enabled = false;
  roles_header = "";
  jwt_enabled = true;
}

abbrev request : Request
request = record {
  method = "GET";
  path = "/v1/subjects";
  remote_ip = "10.0.0.1";
  header = λ name. "Bearer token";
  query = λ name. "";
}

read_passes :
    authorize_action reading
      (with_jwt keys_library library policy moment (some cache) crypto)
      auth
      1
      ""
      request
      none
    ≡ ok tt
unfolding authorize_action evidra_gitops.Api.Auth.authorize_read evidra_gitops.Api.Auth.limited
    evidra_gitops.Api.Auth.read_checks evidra_gitops.Api.Auth.authorize_roles
    evidra_gitops.Api.Auth.resolve_roles with_jwt evidra_gitops.Api.Jwt.roles_from_jwt
    evidra_gitops.Base.trim_space evidra_gitops.Api.Jwt.bearer_token
    evidra_gitops.Api.Auth.behind_scheme evidra_gitops.Base.split_once evidra_gitops.Base.equal_fold
    evidra_gitops.Api.Jwt.roles_of_token parsed evidra_gitops.Api.Jwt.jwt_key
    evidra_gitops.Api.Jwt.resolve_jwt_key_from_jwks evidra_gitops.Api.Jwt.kid_of printed_value
    evidra_gitops.Base.Dict.lookup evidra_gitops.Event.string_of_value resolve_key is_stale
    evidra_gitops.Api.Jwks.look_up evidra_gitops.Api.Jwks.refresh served_keys
    evidra_gitops.Api.Jwks.keys_from evidra_gitops.Api.Jwks.add_entry evidra_gitops.Base.to_upper
    evidra_gitops.Api.Jwks.rsa_key_from_jwk evidra_gitops.Api.Jwks.checked_key
    evidra_gitops.Api.Jwks.number_from evidra_gitops.Api.Jwks.int64_of
    evidra_gitops.Api.Auth.authorize_read_token evidra_gitops.Api.Auth.bearer_passes
    evidra_gitops.Api.Auth.has_role evidra_gitops.Api.Defaults.append_role
    evidra_gitops.Api.Defaults.append_roles evidra_gitops.Api.Defaults.extract_claim_roles
    evidra_gitops.Api.Defaults.roles_of_claim evidra_gitops.Api.Defaults.split_each
    evidra_gitops.Api.Jwt.roles_of_claims evidra_gitops.Base.Dict.insert evidra_gitops.Base.any
    evidra_gitops.Base.split_all evidra_gitops.Ingest.Shared.add_key
read_passes = refl

authorize_action-IsAuthorized_example :
    IsAuthorized keys_library library
      (λ raw key. verifies raw key ≡ true)
      policy
      moment
      (some cache)
      request
      (roles_for reading)
authorize_action-IsAuthorized_example =
    authorize_action-IsAuthorized keys_library library (λ raw key. verifies raw key ≡ true)
      library-checks policy moment (some cache) crypto auth request reading 1 none "" refl
      read_passes
