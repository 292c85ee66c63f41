-- ===== src/Config/Summary.antt =====
-- Summary of internal/config/config.go: what start-up logs of the configuration.
use evidra_gitops.Base.{String, ◌<>◌, Bool, false, not, ◌&&◌, List, [], ◌∷◌, ◌==◌, if◌then◌else◌}
use evidra_gitops.Config.{Config}

-- StartupSummary and Summary
pub record StartupSummary : Type 0 where
  pub repository_mode : String
  pub webhook_providers : List String
  pub argo_collector : Bool
  pub argo_backend : String
  pub argo_checkpoint_file : String
  pub k8s_collector : Bool
  pub k8s_namespace : String
  pub oidc_enabled : Bool
  pub jwt_enabled : Bool
  pub tls_enabled : Bool
  pub auth_rate_limit : Bool
  pub dev_insecure : Bool
  pub traces_exporter : String
  pub metrics_exporter : String

unfoldable pub summary : Config → StartupSummary
summary c = record {
  repository_mode =
      if not (c.db.driver == "") && not (c.db.dsn == "") then "sql:" <> c.db.dialect else "memory";
  webhook_providers = "argocd" ∷ [];
  argo_collector = c.argo.collector_enabled;
  argo_backend = c.argo.backend;
  argo_checkpoint_file = c.argo.checkpoint_file;
  k8s_collector = false;
  k8s_namespace = c.k8s_namespace;
  oidc_enabled = c.auth.oidc_enabled;
  jwt_enabled = c.auth.jwt_enabled;
  tls_enabled = c.tls.enabled;
  auth_rate_limit = c.auth.rate_limit;
  dev_insecure = c.dev_insecure;
  traces_exporter = c.traces_exporter;
  metrics_exporter = c.metrics_exporter;
}
