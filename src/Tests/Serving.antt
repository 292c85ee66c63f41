-- ===== src/Tests/Serving.antt =====
-- The readers of internal/api, the exporter of internal/export and the configuration at concrete values.
use mathlib.Core.List.{Permᴰ}
use evidra_gitops.Base.{
  ℕ, String, ◌<>◌, ◌==◌, ◌≡◌, ◌⊎◌, inl, inr, refl, true, false, Option, none, some, List, [], ◌∷◌,
  any, trim_space, if◌then◌else◌, arith,
}
use evidra_gitops.Base.Dict.{Dict}
use evidra_gitops.Base.Int.{pos}
use evidra_gitops.Base.Sort.Distinct.{IsDistinct}
use evidra_gitops.Result.{ok, err, other}
use evidra_gitops.Store.{MemoryRepository, new_memory_repository, completed, ExportJob}
use evidra_gitops.Store.Query.{TimelineQuery}
use evidra_gitops.App.{Exporter, Service}
use evidra_gitops.App.Memory.{memory_repository}
use evidra_gitops.Api.{Request, Failure}
use evidra_gitops.Api.Auth.{Crypto, AuthConfig, bearer_passes, authorize_read}
use evidra_gitops.Api.Auth.Soundness.{IsInRole}
use evidra_gitops.Api.Guard.{bad_request}
use evidra_gitops.Api.Reads.{TimelinePage, handle_timeline, is_scoped}
use evidra_gitops.Api.Reads.Sound.{IsAsked, IsPage, handle_timeline_sound}
use evidra_gitops.Api.Exports.{ExportAnswer, artifact, handle_export_by_id}
use evidra_gitops.Api.Exports.Sound.{IsArtifact, handle_export_by_id_sound}
use evidra_gitops.Api.Changes.{parse_change_path, unknown}
use evidra_gitops.Export.{
  ExportLibraries, exported_before, create_evidence_pack, derive_primary_change, is_failing,
  is_succeeding,
}
use evidra_gitops.Export.Orders.{create_evidence_pack-perm}
use evidra_gitops.Export.Results.{derive_primary_change-result}
use evidra_gitops.Config.{Config, validate}
use evidra_gitops.Config.Sound.{IsUsable, validate_sound}
use evidra_gitops.Config.Access.{server_auth, HasShown, authorize_read-validated}
use evidra_gitops.Tests.Standard.{standard, first, second}

abbrev crypto : Crypto
crypto = record {
  decode_hex = λ s. some s;
  hmac_sha256 = λ secret body. secret <> body;
  roles_from_jwt = λ r. err (other "invalid jwt token");
}

abbrev config : Config
config = record {
  addr = ":8080";
  export_dir = "exports";
  dev_insecure = false;
  trusted_proxies = "";
  db = record {
    driver = "";
    dsn = "";
    dialect = "";
    host = "";
    port = "";
    name = "";
    user = "";
    password = "";
    ssl_mode = "";
  };
  auth = record {
    read_token = "t";
    ingest_token = "";
    webhook_secret = "";
    oidc_enabled = false;
    roles_header = "";
    jwt_enabled = false;
    issuer = "";
    audience = "";
    hs256_secret = "";
    rs256_public_key_pem = "";
    jwks_url = "";
    rate_limit = false;
  };
  argo = record { backend = ""; collector_enabled = false; api_url = ""; checkpoint_file = "" };
  k8s_enabled = false;
  k8s_namespace = "";
  tls = record { enabled = false; cert_file = ""; key_file = "" };
  traces_exporter = "none";
  metrics_exporter = "none";
}

config_valid : validate config ≡ ok tt
unfolding validate evidra_gitops.Config.report evidra_gitops.Config.problems_of
    evidra_gitops.Config.all_checks evidra_gitops.Config.general_checks trim_space
    evidra_gitops.Config.database_checks evidra_gitops.Config.has_any_db_parts
    evidra_gitops.Config.collector_checks evidra_gitops.Config.auth_checks
    evidra_gitops.Config.read_auth_configured evidra_gitops.Config.tls_checks
config_valid = refl

validate_sound_example : IsUsable config
validate_sound_example = validate_sound config config_valid

abbrev auth : AuthConfig
auth = record {
  read_token = "t";
  ingest_token = "";
  generic_webhook = record { header = ""; secret = "" };
  oidc_enabled = false;
  roles_header = "";
  jwt_enabled = false;
}

abbrev request : String → Request
request path = record {
  method = "GET";
  path = path;
  remote_ip = "10.0.0.1";
  header = λ name. "Bearer t";
  query = λ name. "a:b:c";
}

read_passes : (authorize_read crypto (server_auth config) 1 (request "/v1/subjects") none).0 ≡ ok tt
unfolding authorize_read evidra_gitops.Api.Auth.limited evidra_gitops.Api.Auth.read_checks
    evidra_gitops.Api.Auth.authorize_roles evidra_gitops.Api.Auth.resolve_roles server_auth
    evidra_gitops.Api.Defaults.with_auth_defaults evidra_gitops.Api.Auth.authorize_read_token
    bearer_passes trim_space evidra_gitops.Api.Auth.match_bearer
    evidra_gitops.Api.Auth.behind_scheme evidra_gitops.Base.split_once evidra_gitops.Base.equal_fold
read_passes = refl

authorize_read-validated_example : HasShown crypto (server_auth config) (request "/v1/subjects")
authorize_read-validated_example =
    authorize_read-validated crypto config 1 (request "/v1/subjects") none config_valid refl
      read_passes

abbrev timeline_request : Request
timeline_request = record (request "/v1/timeline") {
  query = λ name. if name == "subject" then "a:b:c" else "";
}

abbrev page : TimelinePage
page = record { items = []; limit = pos 0; next_cursor = "" }

timeline_page :
    (handle_timeline standard
      (memory_repository standard)
      crypto
      auth
      1
      timeline_request
      none
      new_memory_repository
      (λ s. none)).0
    ≡ inl page
unfolding handle_timeline evidra_gitops.Api.Guard.guarded evidra_gitops.Api.Guard.checked_answer
    authorize_read evidra_gitops.Api.Auth.limited evidra_gitops.Api.Auth.read_checks
    evidra_gitops.Api.Auth.authorize_roles evidra_gitops.Api.Auth.resolve_roles
    evidra_gitops.Api.Auth.authorize_read_token bearer_passes trim_space
    evidra_gitops.Api.Auth.match_bearer evidra_gitops.Api.Auth.behind_scheme
    evidra_gitops.Base.equal_fold evidra_gitops.Api.Reads.timeline_answer
    evidra_gitops.Api.Reads.timeline_params evidra_gitops.Api.Guard.store_answer is_scoped
    evidra_gitops.Api.Reads.limit_param evidra_gitops.Api.Reads.page_of
    evidra_gitops.Api.Reads.query_from evidra_gitops.Api.Reads.scoped
    evidra_gitops.Api.Reads.with_subject evidra_gitops.App.parse_subject evidra_gitops.App.split_n
    evidra_gitops.App.subject_of_parts evidra_gitops.Base.select memory_repository
    evidra_gitops.Store.Query.query_timeline evidra_gitops.Store.Cursor.decode_cursor
    evidra_gitops.Store.Query.page evidra_gitops.Store.Query.timeline_limit
    evidra_gitops.Store.sort_stored_events evidra_gitops.Store.Query.kept
    evidra_gitops.Base.Dict.values
timeline_page = refl

handle_timeline_sound_example :
    IsInRole crypto auth timeline_request ("reader" ∷ "exporter" ∷ "admin" ∷ [])
    × (bearer_passes (trim_space auth.read_token) timeline_request ≡ true)
    × (q : TimelineQuery) × IsAsked standard (λ s. none) timeline_request q
    × IsPage standard (memory_repository standard) q page new_memory_repository
handle_timeline_sound_example =
    handle_timeline_sound standard (memory_repository standard) crypto auth 1 timeline_request none
      new_memory_repository (λ s. none) page timeline_page

abbrev exporter : Exporter
exporter = record { create_evidence_pack = λ id events. ok id; read_artifact = λ path. ok path }

abbrev exported : MemoryRepository
exported = record {
  events = [];
  exports =
      (
        "x",
        record {
          id = "x";
          status = completed;
          format = "json";
          filter = none;
          artifact_uri = "x.json";
          error = "";
          created_at = 1;
          completed_at = some 2;
        },
      )
      ∷ [];
}

artifact_answered :
    (handle_export_by_id standard
      (memory_repository standard)
      exporter
      crypto
      auth
      1
      (request "/v1/exports/x/download")
      none
      exported).0
    ≡ inl (artifact "x.json")
unfolding handle_export_by_id evidra_gitops.Api.Guard.checked_answer
    evidra_gitops.Api.Auth.authorize_export evidra_gitops.Api.Auth.limited
    evidra_gitops.Api.Auth.export_checks evidra_gitops.Api.Auth.authorize_roles
    evidra_gitops.Api.Auth.resolve_roles evidra_gitops.Api.Auth.authorize_read_token bearer_passes
    trim_space evidra_gitops.Api.Auth.match_bearer evidra_gitops.Api.Auth.behind_scheme
    evidra_gitops.Base.split_once evidra_gitops.Base.equal_fold
    evidra_gitops.Api.Exports.export_view evidra_gitops.Base.cut_suffix
    evidra_gitops.Api.Changes.or_whole evidra_gitops.Api.Exports.artifact_answer
    evidra_gitops.Api.Exports.download_of evidra_gitops.Api.Exports.handle_export_download
    evidra_gitops.Base.Dict.lookup evidra_gitops.Base.cut_prefix memory_repository
    evidra_gitops.Store.Exports.get_export
artifact_answered = refl

handle_export_by_id_sound_example :
    IsInRole crypto auth (request "/v1/exports/x/download") ("exporter" ∷ "admin" ∷ [])
    × (bearer_passes (trim_space auth.read_token) (request "/v1/exports/x/download") ≡ true)
    × IsArtifact standard (memory_repository standard) exporter exported "x.json"
handle_export_by_id_sound_example =
    handle_export_by_id_sound standard (memory_repository standard) exporter crypto auth 1
      (request "/v1/exports/x/download") none exported "x.json" artifact_answered

abbrev files : ExportLibraries (List String)
files = record {
  marshal_events = λ events. ok "[]";
  marshal_canonical = λ view events. ok "{}";
  marshal_pack = λ pack. ok "{}";
  join = λ dir file. dir <> "/" <> file;
  make_dir = λ dir disk. (ok tt, disk);
  write_file = λ path content disk. (ok tt, path ∷ disk);
  read_file = λ path disk. err (other "file does not exist");
}

events_apart : IsDistinct exported_before (first ∷ second ∷ [])
unfolding exported_before evidra_gitops.Tests.Standard.sample
events_apart = ((refl, tt), (tt, tt))

create_evidence_pack-perm_example :
    create_evidence_pack standard files "exports" "x" 1 2 (first ∷ second ∷ []) []
    ≡ create_evidence_pack standard files "exports" "x" 1 2 (second ∷ first ∷ []) []
create_evidence_pack-perm_example =
    create_evidence_pack-perm standard files "exports" "x" 1 2 [] (first ∷ second ∷ [])
      (second ∷ first ∷ []) (Permᴰ.swap refl refl) events_apart

derive_primary_change-result_example :
    ((derive_primary_change standard (first ∷ second ∷ [])).result ≡ (
      if any (is_failing standard) (first ∷ second ∷ [])
      then "failed"
      else if any (is_succeeding standard) (first ∷ second ∷ [])
      then "succeeded"
      else "unknown"))
    × ((derive_primary_change standard (first ∷ second ∷ [])).post_deploy_degradation
        ≡ ("observed", false) ∷ [])
derive_primary_change-result_example = derive_primary_change-result standard first (second ∷ [])
