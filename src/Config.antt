-- ===== src/Config.antt =====
-- internal/config/config.go: the configuration and its checks. What viper reads from the environment and from files is left out.
pub mod Summary
pub mod Proxies
pub mod Sound
pub mod Access
use evidra_gitops.Base.{
  ℕ, String, ◌<>◌, Bool, true, false, not, ◌&&◌, ◌||◌, Option, none, some, List, [], ◌∷◌, ◌++◌,
  ◌==◌, if◌then◌else◌, trim_space, to_lower, contains, split_all,
}
use evidra_gitops.Result.{Result, ok, err, other, ◌>>=◌}

pub record AuthSettings : Type 0 where
  pub read_token : String
  pub ingest_token : String
  pub webhook_secret : String
  pub oidc_enabled : Bool
  pub roles_header : String
  pub jwt_enabled : Bool
  pub issuer : String
  pub audience : String
  pub hs256_secret : String
  pub rs256_public_key_pem : String
  pub jwks_url : String
  pub rate_limit : Bool

pub record DatabaseSettings : Type 0 where
  pub driver : String
  pub dsn : String
  pub dialect : String
  pub host : String
  pub port : String
  pub name : String
  pub user : String
  pub password : String
  pub ssl_mode : String

pub record ArgoSettings : Type 0 where
  pub backend : String
  pub collector_enabled : Bool
  pub api_url : String
  pub checkpoint_file : String

pub record TlsSettings : Type 0 where
  pub enabled : Bool
  pub cert_file : String
  pub key_file : String

-- Config, the part that its methods read
pub record Config : Type 0 where
  pub addr : String
  pub export_dir : String
  pub dev_insecure : Bool
  pub trusted_proxies : String
  pub db : DatabaseSettings
  pub auth : AuthSettings
  pub argo : ArgoSettings
  pub k8s_enabled : Bool
  pub k8s_namespace : String
  pub tls : TlsSettings
  pub traces_exporter : String
  pub metrics_exporter : String

abbrev pub is_blank : String → Bool
is_blank s = trim_space s == ""

-- hasAnyDBParts
unfoldable pub has_any_db_parts : DatabaseSettings → Bool
has_any_db_parts d =
    not (is_blank d.host)
    || not (is_blank d.port)
    || not (is_blank d.name)
    || not (is_blank d.user)
    || not (is_blank d.password)

-- hasAllDBParts
unfoldable pub has_all_db_parts : DatabaseSettings → Bool
has_all_db_parts d =
    not (is_blank d.host)
    && not (is_blank d.port)
    && not (is_blank d.name)
    && not (is_blank d.user)
    && not (is_blank d.password)

unfoldable pub read_auth_configured : AuthSettings → Bool
read_auth_configured a = not (is_blank a.read_token) || a.oidc_enabled || a.jwt_enabled

-- The conditions of Validate, each with its problem, in its order.
unfoldable pub general_checks : Config → List (Bool × String)
general_checks c =
    (is_blank c.addr, "EVIDRA_ADDR must not be empty")
    ∷ (is_blank c.export_dir, "EVIDRA_EXPORT_DIR must not be empty")
    ∷ []

unfoldable pub database_checks : DatabaseSettings → List (Bool × String)
database_checks d =
    (
      not (d.driver == "") && d.dsn == "",
      "database connection is not configured; set EVIDRA_DB_DSN or EVIDRA_DB_HOST/EVIDRA_DB_PORT/EVIDRA_DB_NAME/EVIDRA_DB_USER/EVIDRA_DB_PASSWORD",
    )
    ∷ (
      not (d.dsn == "") && d.driver == "",
      "EVIDRA_DB_DRIVER is required when EVIDRA_DB_DSN is set",
    )
    ∷ (
      d.dsn == "" && has_any_db_parts d && not (has_all_db_parts d),
      "incomplete split DB config; set all of EVIDRA_DB_HOST/EVIDRA_DB_PORT/EVIDRA_DB_NAME/EVIDRA_DB_USER/EVIDRA_DB_PASSWORD",
    )
    ∷ (
      d.dsn == "" && has_any_db_parts d && d.driver == "",
      "EVIDRA_DB_DRIVER is required when split DB connection variables are set",
    )
    ∷ []

unfoldable pub collector_checks : Config → List (Bool × String)
collector_checks c =
    (
      c.argo.collector_enabled && is_blank c.argo.api_url,
      "EVIDRA_ARGO_API_URL is required when EVIDRA_ARGO_COLLECTOR_ENABLED=true",
    )
    ∷ (
      c.argo.collector_enabled && is_blank c.argo.checkpoint_file,
      "EVIDRA_ARGO_CHECKPOINT_FILE is required when EVIDRA_ARGO_COLLECTOR_ENABLED=true",
    )
    ∷ (
      c.argo.collector_enabled && not (to_lower (trim_space c.argo.backend) == "argocd-client"),
      "EVIDRA_ARGO_BACKEND must be: argocd-client",
    )
    ∷ (c.k8s_enabled, "EVIDRA_K8S_COLLECTOR_ENABLED=true is out of scope for Argo CD-first v1")
    ∷ []

unfoldable pub auth_checks : Config → List (Bool × String)
auth_checks c =
    (
      not c.dev_insecure && not (read_auth_configured c.auth),
      "read/export auth is not configured; set EVIDRA_READ_TOKEN or enable OIDC/JWT, or explicitly set EVIDRA_DEV_INSECURE=true for local development only",
    )
    ∷ (
      c.auth.jwt_enabled && is_blank c.auth.issuer,
      "EVIDRA_AUTH_JWT_ISSUER is required when EVIDRA_AUTH_JWT_ENABLED=true",
    )
    ∷ (
      c.auth.jwt_enabled && is_blank c.auth.audience,
      "EVIDRA_AUTH_JWT_AUDIENCE is required when EVIDRA_AUTH_JWT_ENABLED=true",
    )
    ∷ (
      c.auth.jwt_enabled
          && is_blank c.auth.hs256_secret
          && is_blank c.auth.rs256_public_key_pem
          && is_blank c.auth.jwks_url,
      "one of EVIDRA_AUTH_JWT_HS256_SECRET, EVIDRA_AUTH_JWT_RS256_PUBLIC_KEY_PEM, or EVIDRA_AUTH_JWT_JWKS_URL is required when EVIDRA_AUTH_JWT_ENABLED=true",
    )
    ∷ []

unfoldable pub tls_checks : TlsSettings → List (Bool × String)
tls_checks t =
    (
      t.enabled && is_blank t.cert_file,
      "EVIDRA_TLS_CERT_FILE is required when EVIDRA_TLS_ENABLED=true",
    )
    ∷ (
      t.enabled && is_blank t.key_file,
      "EVIDRA_TLS_KEY_FILE is required when EVIDRA_TLS_ENABLED=true",
    )
    ∷ []

unfoldable pub all_checks : Config → List (Bool × String)
all_checks c =
    general_checks c
    ++ database_checks c.db
    ++ collector_checks c
    ++ auth_checks c
    ++ tls_checks c.tls

-- `problems`
unfoldable pub problems_of : List (Bool × String) → List String
problems_of [] = []
problems_of ((wrong, problem) ∷ checks) =
    let rest = problems_of checks in if wrong then problem ∷ rest else rest

-- `strings.Join`
unfoldable pub joined_with : String → List String → String
joined_with sep [] = ""
joined_with sep (s ∷ []) = s
joined_with sep (s ∷ t ∷ ts) = s <> sep <> joined_with sep (t ∷ ts)

unfoldable pub report : List String → Result (Unit {0})
report [] = ok tt
report (problem ∷ problems) = err (other (joined_with "; " (problem ∷ problems)))

-- Validate
unfoldable pub validate : Config → Result (Unit {0})
validate c = report (problems_of (all_checks c))
