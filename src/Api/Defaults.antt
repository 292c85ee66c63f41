-- ===== src/Api/Defaults.antt =====
-- withAuthDefaults of internal/api/auth.go, on the parts of AuthConfig, and extractClaimRoles of
-- internal/api/roles.go.
use evidra_gitops.Base.{
  ℕ, String, Bool, none, some, List, [], ◌∷◌, ◌++◌, ◌==◌, if◌then◌else◌, trim_space, to_lower,
  split_all,
}
use evidra_gitops.Base.Int.{ℤ, pos, is_positive}
use evidra_gitops.Base.Dict.{Dict, lookup}
use evidra_gitops.Value.{Value, text, array, strings, elements}
use evidra_gitops.Api.Auth.{AuthConfig}
use evidra_gitops.Api.Limiter.{RateLimitPolicy}
use evidra_gitops.Ingest.Shared.{add_key}

abbrev pub text_or : String → String → String
text_or s default = if trim_space s == "" then default else s

-- JWTPolicy
pub record JwtPolicy : Type 0 where
  pub enabled : Bool
  pub issuer : String
  pub audience : String
  pub roles_claim : String
  pub hs256_secret : String
  pub rs256_public_key_pem : String
  pub jwks_url : String
  pub jwks_refresh : String

unfoldable pub with_auth_defaults : AuthConfig → AuthConfig
with_auth_defaults a = record a {
  generic_webhook = record a.generic_webhook {
    header = text_or a.generic_webhook.header "X-Evidra-Signature";
  };
  roles_header = text_or a.roles_header "X-Auth-Roles";
}

unfoldable pub with_jwt_defaults : JwtPolicy → JwtPolicy
with_jwt_defaults j = record j {
  roles_claim = text_or j.roles_claim "roles";
  jwks_refresh = text_or j.jwks_refresh "5m";
}

abbrev positive_or : ℤ → ℤ → ℤ
positive_or n default = if is_positive n then n else default

unfoldable pub with_rate_defaults : RateLimitPolicy → RateLimitPolicy
with_rate_defaults r = record r {
  read_per_minute = positive_or r.read_per_minute (pos 600);
  export_per_minute = positive_or r.export_per_minute (pos 120);
  ingest_per_minute = positive_or r.ingest_per_minute (pos 240);
}

-- appendRole; `seen` has the roles of `out`.
unfoldable pub append_role : List String → String → List String
append_role out v =
    let role = to_lower (trim_space v) in if role == "" then out else add_key out role

unfoldable pub append_roles : List String → List String → List String
append_roles out [] = out
append_roles out (v ∷ vs) = append_roles (append_role out v) vs

-- The elements that are texts.
unfoldable pub texts_of : List Value → List String
texts_of [] = []
texts_of (text s ∷ vs) = s ∷ texts_of vs
texts_of (_ ∷ vs) = texts_of vs

-- `strings.FieldsFunc` at commas and spaces, with empty fields, which appendRole drops
unfoldable pub split_each : ℕ → List String → List String
split_each sep [] = []
split_each sep (s ∷ ss) = split_all sep s ++ split_each sep ss

-- The `switch` on the claim.
unfoldable pub roles_of_claim : Value → List String
roles_of_claim (text s) = append_roles [] (split_each b' ' (split_all b',' s))
roles_of_claim (strings ss) = append_roles [] ss
roles_of_claim (array vs) = append_roles [] (texts_of (elements vs))
roles_of_claim _ = []

-- extractClaimRoles
unfoldable pub extract_claim_roles : Dict Value → String → List String
extract_claim_roles claims claim_name =
    elim (lookup (if trim_space claim_name == "" then "roles" else trim_space claim_name) claims) [
      | none ↦ []
      | some raw ↦ roles_of_claim raw
    ]
