-- ===== src/Api/Exports.antt =====
-- internal/api/handlers_exports.go: handleExports, handleExportByID and handleExportDownload.
pub mod Sound
use evidra_gitops.Base.{
  ℕ, String, ◌≡◌, ◌≢◌, ◌⊎◌, refl, ap, inl, inr, true, false, Option, none, some, ◌==◌, arith,
  eq_iff, if◌then◌else◌, cut_prefix, cut_suffix, Bool-cases, Option-cases,
}
use evidra_gitops.Base.Dict.{Dict}
use evidra_gitops.Result.{Result, ok, err, Result-cases}
use evidra_gitops.Value.{Value}
use evidra_gitops.Event.Platform.{Platform}
use evidra_gitops.Store.{ExportJob}
use evidra_gitops.App.{Repository, Exporter}
use evidra_gitops.App.Exporting.{create_export}
use evidra_gitops.Api.{Request, Failure, handle_store_err, unauthorized}
use evidra_gitops.Api.Limiter.{AuthRateLimiter}
use evidra_gitops.Api.Auth.{Crypto, AuthConfig, authorize_export}
use evidra_gitops.Api.Guard.{method_not_allowed, bad_request, store_answer, checked_answer}
use evidra_gitops.Api.Changes.{or_whole, trim_suffix}

-- What handleExportByID answers: a job, or the bytes of its artifact.
pub data ExportAnswer : Type 0 where
  job : ExportJob → ExportAnswer
  artifact : String → ExportAnswer

abbrev not_ready : Failure
not_ready = record { status = 409; code = "EXPORT_NOT_READY"; retryable = true }

unfoldable pub job_answer : Result ExportJob → ExportAnswer ⊎ Failure
job_answer (ok j) = inl (job j)
job_answer (err failure) = inr (handle_store_err failure)

unfoldable pub artifact_answer : Result String → ExportAnswer ⊎ Failure
artifact_answer (ok bytes) = inl (artifact bytes)
artifact_answer (err failure) = inr (handle_store_err failure)

-- The artifact of a job, if it is there.
unfoldable pub download_of : Exporter → Result ExportJob → ExportAnswer ⊎ Failure
download_of exporter (err failure) = inr (handle_store_err failure)
download_of exporter (ok j) =
    if j.artifact_uri == ""
    then inr not_ready
    else artifact_answer (exporter.read_artifact j.artifact_uri)

module _ {R : Type 0} (p : Platform) (repository : Repository R) (exporter : Exporter) where
  -- handleExportDownload
  unfoldable pub handle_export_download : Request → String → R → ExportAnswer ⊎ Failure
  handle_export_download r id repo =
      if r.method == "GET"
      then download_of exporter (repository.get_export id repo)
      else inr method_not_allowed

  -- handleExportByID behind its authorization
  unfoldable pub export_view : Request → R → ExportAnswer ⊎ Failure
  export_view r repo =
      let path = or_whole r.path (cut_prefix r.path "/v1/exports/") in
      elim (cut_suffix path "/download") [
        | some id ↦ handle_export_download r (trim_suffix id "/") repo
        | none ↦
            if r.method == "GET"
            then job_answer (repository.get_export path repo)
            else inr method_not_allowed
      ]

  -- handleExportByID
  unfoldable pub handle_export_by_id :
      Crypto
      → AuthConfig
      → ℕ
      → Request
      → Option AuthRateLimiter
      → R
      → (ExportAnswer ⊎ Failure) × Option AuthRateLimiter
  handle_export_by_id c auth now_window r l repo =
      checked_answer (authorize_export c auth now_window r l) (export_view r repo)

  unfoldable pub created_answer :
      Result ExportJob × R
      → Option AuthRateLimiter
      → (ExportJob ⊎ Failure) × Option AuthRateLimiter × R
  created_answer (created, repo) l = (store_answer created, l, repo)

  -- handleExports behind its authorization; `decoded` is what decodeJSON makes of the body.
  unfoldable pub create_answer :
      ℕ
      → ℕ
      → ℕ
      → Result (String × Option (Dict Value))
      → Option AuthRateLimiter
      → R
      → (ExportJob ⊎ Failure) × Option AuthRateLimiter × R
  create_answer nanos now later (err failure) l repo = (inr (bad_request "INVALID_JSON"), l, repo)
  create_answer nanos now later (ok (format, filter)) l repo =
      created_answer (create_export p repository exporter nanos now later format filter repo) l

  unfoldable pub exports_answer :
      ℕ
      → ℕ
      → ℕ
      → Result (String × Option (Dict Value))
      → Result (Unit {0}) × Option AuthRateLimiter
      → R
      → (ExportJob ⊎ Failure) × Option AuthRateLimiter × R
  exports_answer nanos now later decoded (err failure, l) repo =
      (inr (unauthorized failure), l, repo)
  exports_answer nanos now later decoded (ok _, l) repo =
      create_answer nanos now later decoded l repo

  -- handleExports
  unfoldable pub handle_exports :
      Crypto
      → AuthConfig
      → ℕ
      → ℕ
      → ℕ
      → ℕ
      → Request
      → Result (String × Option (Dict Value))
      → Option AuthRateLimiter
      → R
      → (ExportJob ⊎ Failure) × Option AuthRateLimiter × R
  handle_exports c auth now_window nanos now later r decoded l repo =
      if r.method == "POST"
      then exports_answer nanos now later decoded (authorize_export c auth now_window r l) repo
      else (inr method_not_allowed, l, repo)
