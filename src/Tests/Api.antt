-- ===== src/Tests/Api.antt =====
-- The API of internal/api at concrete requests.
use evidra_gitops.Base.{
  All, ◌+◌, if◌then◌else◌, trim_space, split_all, split_once, select, any, to_lower, equal_fold,
  ◌<>◌, String, ◌≡◌, ◌≤◌, ◌-◌, ◌==◌, refl, true, false, none, some, List, [], ◌∷◌,
}
use evidra_gitops.Base.Dict.{Dict, lookup, insert}
use evidra_gitops.Base.Int.{pos}
use evidra_gitops.Result.{ok, err, other}
use evidra_gitops.Event.{StoredEvent}
use evidra_gitops.Store.{MemoryRepository, new_memory_repository}
use evidra_gitops.App.{Service}
use evidra_gitops.App.Memory.{memory_repository}
use evidra_gitops.Api.{Request}
use evidra_gitops.Api.Limiter.{
  allow, allow_within, turned, counted, count_of, AuthRateLimiter, new_auth_rate_limiter, limit_of,
  counter,
}
use evidra_gitops.Api.Limiter.Bounds.{IsLimiting, allowed_of, allowed_of_bounded}
use evidra_gitops.Api.Auth.{
  limited, ingest_checks, read_checks, authorize_roles, resolve_roles, roles_from_header,
  header_roles, or_missing, has_role, match_bearer, behind_scheme, authorize_ingest_token,
  authorize_read_token, Crypto, AuthConfig, authorize_ingest, authorize_read, bearer_passes,
  ingest_bearer, signature_passes,
}
use evidra_gitops.Api.Auth.Shown.{ShowsAdmin, ShowsToken, ShowsSignature, authorize_ingest_shown}
use evidra_gitops.Tests.Standard.{standard, first, second, sample, empty_canonical}
use evidra_gitops.Store
use evidra_gitops.Store.{accepted, is_valid_event, hashed, store_event}
use evidra_gitops.Event.Hash.{compute_integrity_hash}
use evidra_gitops.App
use evidra_gitops.Api.Events.{Ingestion, ingest_events}
use evidra_gitops.Api.Events.Stored.{IsStored, ingest_events-IsStored}
use evidra_gitops.Tests.App.{keeping}

abbrev crypto : Crypto
crypto = record {
  decode_hex = λ s. some s;
  hmac_sha256 = λ secret body. secret <> body;
  roles_from_jwt = λ r. err (other "invalid jwt token");
}

abbrev config : AuthConfig
config = record {
  read_token = "";
  ingest_token = "secret";
  generic_webhook = record { header = "X-Evidra-Signature"; secret = "" };
  oidc_enabled = true;
  roles_header = "X-Auth-Roles";
  jwt_enabled = false;
}

abbrev posted : String → Request
posted token = record {
  method = "POST";
  path = "/v1/events";
  remote_ip = "10.0.0.1";
  header = λ name. if name == "Authorization" then token else "Admin, reader";
  query = λ name. "";
}

abbrev limiter : AuthRateLimiter
limiter =
    new_auth_rate_limiter
      (record {
        enabled = true;
        read_per_minute = pos 2;
        export_per_minute = pos 1;
        ingest_per_minute = pos 1;
      })
      7

limiter-IsLimiting : IsLimiting 7 "read" 1 limiter
unfolding new_auth_rate_limiter limit_of lookup trim_space
limiter-IsLimiting = record { enabled = refl; limited = refl; current = refl }

allowed_of_bounded_example :
    allowed_of 7 "read" "read|10.0.0.1"
      ("10.0.0.1" ∷ "10.0.0.2" ∷ "10.0.0.1" ∷ "10.0.0.1" ∷ [])
      limiter
    ≤ 2 - counter "read|10.0.0.1" limiter
allowed_of_bounded_example =
    allowed_of_bounded 7 "read" 1 "read|10.0.0.1"
      ("10.0.0.1" ∷ "10.0.0.2" ∷ "10.0.0.1" ∷ "10.0.0.1" ∷ []) limiter limiter-IsLimiting

passed : (authorize_ingest crypto config 7 "{}" (posted "Bearer secret") (some limiter)).0 ≡ ok tt
unfolding authorize_ingest limited allow allow_within turned counted counter count_of lookup
    new_auth_rate_limiter limit_of trim_space ingest_checks authorize_roles resolve_roles
    roles_from_header header_roles or_missing has_role split_all split_once select any to_lower
    equal_fold bearer_passes match_bearer behind_scheme authorize_ingest_token ingest_bearer
    signature_passes
passed = refl

authorize_ingest_shown_example :
    ShowsAdmin crypto config (posted "Bearer secret")
    × ShowsToken crypto config (posted "Bearer secret")
    × ShowsSignature crypto config (posted "Bearer secret") "{}"
authorize_ingest_shown_example =
    authorize_ingest_shown crypto config (posted "Bearer secret") 7 "{}" (some limiter) passed

passed_read : (authorize_read crypto config 7 (posted "") none).0 ≡ ok tt
unfolding authorize_read limited allow allow_within turned counted counter count_of lookup
    new_auth_rate_limiter limit_of trim_space read_checks authorize_roles resolve_roles
    roles_from_header header_roles or_missing has_role split_all split_once select any to_lower
    equal_fold bearer_passes match_bearer behind_scheme authorize_read_token
passed_read = refl

idle : Service MemoryRepository (Dict (List StoredEvent))
idle = record { repo = new_memory_repository; change_cache = [] }

refused :
    (authorize_ingest crypto config 7 "{}" (posted "Bearer guess") (some limiter)).0
    ≡ err (other "missing or invalid bearer token")
unfolding authorize_ingest limited allow allow_within turned counted counter count_of lookup
    new_auth_rate_limiter limit_of trim_space ingest_checks authorize_roles resolve_roles
    roles_from_header header_roles or_missing has_role split_all split_once select any to_lower
    equal_fold bearer_passes match_bearer behind_scheme authorize_ingest_token ingest_bearer
    signature_passes
refused = refl

entries : List Ingestion
entries =
    record { id = "e1"; status = accepted; ingested_at = 9 }
    ∷ record { id = "e2"; status = accepted; ingested_at = 10 }
    ∷ []

batch :
    (ingest_events standard
      (memory_repository standard)
      keeping
      (λ n. 9 + n)
      0
      (first ∷ second ∷ [])
      idle).0
    ≡ ok entries
unfolding entries ingest_events App.ingest_event memory_repository Store.ingest_event is_valid_event
    hashed compute_integrity_hash empty_canonical store_event lookup insert sample idle
batch = refl

ingest_events-IsStored_example :
    All
      (λ (e : StoredEvent).
        IsStored
          (ingest_events standard
            (memory_repository standard)
            keeping
            (λ n. 9 + n)
            0
            (first ∷ second ∷ [])
            idle).1.repo
          e.id)
      (first ∷ second ∷ [])
ingest_events-IsStored_example =
    ingest_events-IsStored standard keeping (λ n. 9 + n) 0 (first ∷ second ∷ []) idle entries batch
