-- ===== src/Config/Sound.antt =====
-- What Validate of internal/config/config.go lets pass.
use evidra_gitops.Base.{
  String, ◌≡◌, refl, Bool, true, false, not, ◌&&◌, ◌||◌, List, [], ◌∷◌, ◌==◌, All, arith,
  Bool-cases, inl, inr, trim_space, to_lower,
}
use evidra_gitops.Result.{ok}
use evidra_gitops.Config.{
  Config, is_blank, read_auth_configured, general_checks, database_checks, collector_checks,
  auth_checks, tls_checks, all_checks, problems_of, report, validate,
}

no_problem : (problems : List String) → report problems ≡ ok tt → problems ≡ []
unfolding report
no_problem [] h = refl
no_problem (problem ∷ problems) h = absurd (ground arith)

checks_clear :
    (checks : List (Bool × String))
    → problems_of checks ≡ []
    → All (λ (check : Bool × String). check.0 ≡ false) checks
unfolding problems_of
checks_clear [] h = tt
checks_clear ((wrong, problem) ∷ checks) h = elim (Bool-cases wrong) [
  | inl bad ↦ absurd (ground (arith, bad, h))
  | inr good ↦ (good, checks_clear checks (rw good at h))
]

-- What a validated configuration promises.
pub record IsUsable (c : Config) : Type 0 where
  pub has_paths : (is_blank c.addr ≡ false) × (is_blank c.export_dir ≡ false)
  -- a driver and a data source name, or neither
  pub has_database : (c.db.driver == "") ≡ (c.db.dsn == "")
  pub has_collector :
      (not c.argo.collector_enabled
        || (not (is_blank c.argo.api_url)
            && not (is_blank c.argo.checkpoint_file)
            && to_lower (trim_space c.argo.backend) == "argocd-client"))
      ≡ true
  pub has_read_auth : (c.dev_insecure || read_auth_configured c.auth) ≡ true
  pub has_jwt :
      (not c.auth.jwt_enabled
        || (not (is_blank c.auth.issuer)
            && not (is_blank c.auth.audience)
            && not (
                is_blank c.auth.hs256_secret
                && is_blank c.auth.rs256_public_key_pem
                && is_blank c.auth.jwks_url)))
      ≡ true
  pub has_tls :
      (not c.tls.enabled || (not (is_blank c.tls.cert_file) && not (is_blank c.tls.key_file)))
      ≡ true

-- A configuration passes Validate only if its paths are set, a database has both a driver and a source,
-- and the collector, reads, tokens and TLS have what they need where they are enabled; reads may be open
-- in the insecure mode alone.
pub validate_sound : (c : Config) → validate c ≡ ok tt → IsUsable c
unfolding validate all_checks general_checks database_checks collector_checks auth_checks tls_checks
validate_sound c h =
    let (
      addr,
      (
        dir,
        (
          driver,
          (
            dsn,
            (
              parts,
              (
                split,
                (
                  url,
                  (
                    file,
                    (backend, (k8s, (read, (issuer, (audience, (keys, (cert, (key, end)))))))),
                  ),
                ),
              ),
            ),
          ),
        ),
      ),
    ) =
      checks_clear (all_checks c) (no_problem (problems_of (all_checks c)) h) in
    record {
      has_paths = (addr, dir);
      has_database = ground (arith, driver, dsn);
      has_collector = ground (arith, url, file, backend);
      has_read_auth = ground (arith, read);
      has_jwt = ground (arith, issuer, audience, keys);
      has_tls = ground (arith, cert, key);
    }
