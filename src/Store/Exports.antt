-- ===== src/Store/Exports.antt =====
-- The export jobs of internal/store/store.go: CreateExport, SetExportCompleted, SetExportFailed and
-- GetExport.
use evidra_gitops.Base.{◌≡◌, ℕ, String, ◌<>◌, Option, none, some, ◌==◌, if◌then◌else◌}
use evidra_gitops.Base.Dict.{Dict, lookup, insert}
use evidra_gitops.Result.{Result, ok, err, not_found}
use evidra_gitops.Value.{Value}
use evidra_gitops.Event.Platform.{Platform}
use evidra_gitops.Store.{ExportJob, MemoryRepository, pending, completed, failed}

-- CreateExport: `nanos` and `now` are its two readings of the clock.
unfoldable pub create_export :
    Platform
    → ℕ
    → ℕ
    → String
    → Option (Dict Value)
    → MemoryRepository
    → ExportJob × MemoryRepository
create_export p nanos now format filter m =
    let job : ExportJob = record {
      id = "exp_" <> p.unix_nano nanos;
      status = pending;
      format = if format == "" then "json" else format;
      filter = filter;
      artifact_uri = "";
      error = "";
      created_at = now;
      completed_at = none;
    } in
    (job, record m { exports = insert job.id job m.exports })

update_export :
    String → (ExportJob → ExportJob) → MemoryRepository → Result (Unit {0}) × MemoryRepository
update_export id change m = elim (lookup id m.exports) [
  | none ↦ (err not_found, m)
  | some job ↦ (ok tt, record m { exports = insert id (change job) m.exports })
]

abbrev pub completed_job : ℕ → String → ExportJob → ExportJob
completed_job now artifact_uri job = record job {
  status = completed;
  artifact_uri = artifact_uri;
  completed_at = some now;
}

abbrev pub failed_job : ℕ → String → ExportJob → ExportJob
failed_job now message job = record job {
  status = failed;
  error = message;
  completed_at = some now;
}

-- SetExportCompleted
unfoldable pub set_export_completed :
    ℕ → String → String → MemoryRepository → Result (Unit {0}) × MemoryRepository
unfolding update_export
set_export_completed now id artifact_uri m = update_export id (completed_job now artifact_uri) m

-- SetExportFailed
unfoldable pub set_export_failed :
    ℕ → String → String → MemoryRepository → Result (Unit {0}) × MemoryRepository
unfolding update_export
set_export_failed now id message m = update_export id (failed_job now message) m

-- GetExport
unfoldable pub get_export : String → MemoryRepository → Result ExportJob
get_export id m = elim (lookup id m.exports) [ none ↦ err not_found | some job ↦ ok job ]

update_export_found :
    (id : String) (change : ExportJob → ExportJob) (m : MemoryRepository) (job : ExportJob)
    → lookup id m.exports ≡ some job
    → update_export id change m ≡ (ok tt, record m { exports = insert id (change job) m.exports })
unfolding update_export
update_export_found id change m job found = rw (found, update_export)

module _ (now : ℕ) (id info : String) (m : MemoryRepository) (job : ExportJob)
    (found : lookup id m.exports ≡ some job) where
  pub set_export_completed_found :
      set_export_completed now id info m
      ≡ (ok tt, record m { exports = insert id (completed_job now info job) m.exports })
  unfolding set_export_completed
  set_export_completed_found = update_export_found id _ m job found

  pub set_export_failed_found :
      set_export_failed now id info m
      ≡ (ok tt, record m { exports = insert id (failed_job now info job) m.exports })
  unfolding set_export_failed
  set_export_failed_found = update_export_found id _ m job found

pub get_export_found :
    (id : String) (m : MemoryRepository) (job : ExportJob)
    → lookup id m.exports ≡ some job
    → get_export id m ≡ ok job
unfolding get_export
get_export_found id m job found = rw (found, get_export)
