-- ===== src/Api/Exports/Sound.antt =====
-- What stands behind an artifact that handleExportByID of internal/api/handlers_exports.go answers.
use evidra_gitops.Base.{
  ℕ, String, ◌≡◌, ◌≢◌, ◌⊎◌, refl, ap, inl, inr, true, Option, [], ◌∷◌, arith, ◌==◌, eq_iff,
  Bool-cases, Option-cases, trim_space, cut_prefix, cut_suffix,
}
use evidra_gitops.Result.{Result, ok, err}
use evidra_gitops.Event.Platform.{Platform}
use evidra_gitops.Store.{ExportJob}
use evidra_gitops.App.{Repository, Exporter}
use evidra_gitops.Api.{Request, Failure}
use evidra_gitops.Api.Limiter.{AuthRateLimiter}
use evidra_gitops.Api.Auth.{Crypto, AuthConfig, authorize_export, bearer_passes}
use evidra_gitops.Api.Auth.Soundness.{IsInRole, authorize_export_sound}
use evidra_gitops.Api.Guard.{checked_sound}
use evidra_gitops.Api.Changes.{or_whole, trim_suffix}
use evidra_gitops.Api.Exports.{
  ExportAnswer, job, artifact, job_answer, artifact_answer, download_of, handle_export_download,
  export_view, handle_export_by_id,
}

abbrev bytes_of : ExportAnswer ⊎ Failure → String
bytes_of (inl (artifact bytes)) = bytes
bytes_of (inl (job j)) = ""
bytes_of (inr failure) = ""

artifact_read :
    (r : Result String) (bytes : String) → artifact_answer r ≡ inl (artifact bytes) → r ≡ ok bytes
unfolding artifact_answer
artifact_read (ok b) bytes h = ap (λ x. ok (bytes_of x)) h
artifact_read (err failure) bytes h = absurd (ground arith)

abbrev is_artifact : ExportAnswer ⊎ Failure → Unit {0} ⊎ Unit {0}
is_artifact (inl (artifact bytes)) = inl tt
is_artifact (inl (job j)) = inr tt
is_artifact (inr failure) = inr tt

module _ {R : Type 0} (p : Platform) (repository : Repository R) (exporter : Exporter) where
  -- The bytes are the artifact of a job that is stored and has one.
  unfoldable pub IsArtifact : R → String → Type 0
  IsArtifact repo bytes =
      (id : String) × (j : ExportJob) × (repository.get_export id repo ≡ ok j)
      × (j.artifact_uri ≢ "")
      × (exporter.read_artifact j.artifact_uri ≡ ok bytes)

  downloaded :
      (found : Result ExportJob) (bytes : String)
      → download_of exporter found ≡ inl (artifact bytes)
      → (j : ExportJob) × (found ≡ ok j)
        × (j.artifact_uri ≢ "")
        × (exporter.read_artifact j.artifact_uri ≡ ok bytes)
  unfolding download_of
  downloaded (err failure) bytes h = absurd (ground arith)
  downloaded (ok j) bytes h = elim (Bool-cases (j.artifact_uri == "")) [
    | inl missing ↦ absurd (ground (arith, missing, h))
    | inr there ↦ (
      j,
      refl,
      ground (arith, there, eq_iff j.artifact_uri ""),
      artifact_read (exporter.read_artifact j.artifact_uri) bytes (rw there at h),
    )
  ]

  by_download :
      (r : Request) (id : String) (repo : R) (bytes : String)
      → handle_export_download p repository exporter r id repo ≡ inl (artifact bytes)
      → IsArtifact repo bytes
  unfolding handle_export_download IsArtifact
  by_download r id repo bytes h = elim (Bool-cases (r.method == "GET")) [
    | inr wrong ↦ absurd (ground (arith, wrong, h))
    | inl get ↦
        let (j, found, there, read) =
          downloaded (repository.get_export id repo) bytes (rw get at h) in
        (id, j, found, there, read)
  ]

  no_artifact :
      (found : Result ExportJob) (bytes : String) → ¬ (job_answer found ≡ inl (artifact bytes))
  unfolding job_answer
  no_artifact (ok j) bytes h = absurd (ground (arith, ap is_artifact h))
  no_artifact (err failure) bytes h = absurd (ground arith)

  viewed :
      (r : Request) (repo : R) (bytes : String)
      → export_view p repository exporter r repo ≡ inl (artifact bytes)
      → IsArtifact repo bytes
  unfolding export_view
  viewed r repo bytes h =
      let path = or_whole r.path (cut_prefix r.path "/v1/exports/") in
      elim (Option-cases (cut_suffix path "/download")) [
        | inr (id, download) ↦
            by_download r (trim_suffix id "/") repo bytes (rw (download, export_view) at h)
        | inl view ↦ elim (Bool-cases (r.method == "GET")) [
          | inl get ↦ absurd (
              no_artifact (repository.get_export path repo) bytes
                (rw get at rw (view, export_view) at h))
          | inr wrong ↦ absurd (ground (arith, view, wrong, h))
        ]
      ]

  -- An artifact is answered only to an exporter or an administrator where roles are enforced, with the
  -- configured token; and it is what the exporter reads for a job that is stored with an artifact.
  pub handle_export_by_id_sound :
      (c : Crypto) (auth : AuthConfig) (now_window : ℕ) (r : Request) (l : Option AuthRateLimiter)
      (repo : R) (bytes : String)
      → (handle_export_by_id p repository exporter c auth now_window r l repo).0
        ≡ inl (artifact bytes)
      → IsInRole c auth r ("exporter" ∷ "admin" ∷ [])
        × (bearer_passes (trim_space auth.read_token) r ≡ true)
        × IsArtifact repo bytes
  unfolding handle_export_by_id
  handle_export_by_id_sound c auth now_window r l repo bytes h =
      let (allowed, answer) =
        checked_sound (authorize_export c auth now_window r l)
          (export_view p repository exporter r repo) (artifact bytes) h in
      let (role, token) = authorize_export_sound c auth r now_window l allowed in
      (role, token, viewed r repo bytes answer)
