-- ===== src/App/Memory.antt =====
-- The memory repository of internal/store/store.go behind the interface of internal/app/service.go.
use mathlib.Core.Path.{subst}
use evidra_gitops.Base.{ℕ, String, ◌≡◌, ◌⊎◌, refl, sym, ap, ◌∙◌, Option, some, inl, inr, eq_refl}
use evidra_gitops.Base.Dict.{Dict, lookup, insert, lookup-insert}
use evidra_gitops.Value.{Value}
use evidra_gitops.Result.{Error, Result, ok, err}
use evidra_gitops.Event.Platform.{Platform}
use evidra_gitops.Store.{ExportJob, MemoryRepository, completed, failed, get_event, delete_event}
use evidra_gitops.Store.Query.{query_timeline, list_subjects, events_by_extension}
use evidra_gitops.Store.Exports.{
  create_export, set_export_completed, set_export_failed, get_export, completed_job, failed_job,
  set_export_completed_found, set_export_failed_found, get_export_found,
}
use evidra_gitops.App.{Repository, Exporter, message}
use evidra_gitops.App.Exporting
use evidra_gitops.App.Exporting.{packed, settle, completed_by}

unfoldable pub memory_repository : Platform → Repository MemoryRepository
memory_repository p = record {
  ingest_event = evidra_gitops.Store.ingest_event p;
  get_event = get_event;
  query_timeline = query_timeline p;
  list_subjects = λ m. ok (list_subjects m);
  events_by_extension = events_by_extension;
  create_export = λ nanos now format filter m.
      let (job, after) = create_export p nanos now format filter m in (ok job, after);
  set_export_completed = set_export_completed;
  set_export_failed = set_export_failed;
  get_export = get_export;
  delete_event = delete_event;
}

lookup-insert_same :
    (id : String) (job : ExportJob) (jobs : Dict ExportJob)
    → lookup id (insert id job jobs) ≡ some job
lookup-insert_same id job jobs = rw lookup-insert (rw eq_refl)

-- A job is settled: it is returned and stored completed, or its error is returned and it is stored
-- failed, with the message of the error.
unfoldable pub IsSettled : String → Result ExportJob × MemoryRepository → Type 0
IsSettled id (answer, after) =
    ((done : ExportJob) × (answer ≡ ok done)
      × (lookup id after.exports ≡ some done)
      × (done.status ≡ completed))
    ⊎ ((failure : Error) × (done : ExportJob) × (answer ≡ err failure)
        × (lookup id after.exports ≡ some done)
        × (done.status ≡ failed)
        × (done.error ≡ message failure))

module _ (p : Platform) (now : ℕ) (job : ExportJob) (m : MemoryRepository)
    (found : lookup job.id m.exports ≡ some job) where
  settle-IsSettled :
      (r : Result String) → IsSettled job.id (settle p (memory_repository p) now job r m)
  unfolding IsSettled settle memory_repository completed_by
  settle-IsSettled (err failure) =
      let stored =
        ap (λ (r : Result (Unit {0}) × MemoryRepository). r.1)
          (set_export_failed_found now job.id (message failure) m job found) in
      inr (
        failure,
        failed_job now (message failure) job,
        refl,
        ap (λ (r : MemoryRepository). lookup job.id r.exports) stored
            ∙ lookup-insert_same job.id _ _,
        refl,
        refl,
      )
  settle-IsSettled (ok path) =
      let done = completed_job now path job in
      let after = record m { exports = insert job.id done m.exports } in
      let shape =
        ap (completed_by p (memory_repository p) job.id)
          (set_export_completed_found now job.id path m job found)
        ∙ ap (λ (r : Result ExportJob). (r, after))
            (get_export_found job.id after done (lookup-insert_same job.id done m.exports)) in
      subst (IsSettled job.id) (sym shape)
        (inl (done, refl, lookup-insert_same job.id done m.exports, refl))

created_found :
    (p : Platform) (nanos now : ℕ) (format : String) (filter : Option (Dict Value))
    (m : MemoryRepository)
    → lookup
        (create_export p nanos now format filter m).0.id
        (create_export p nanos now format filter m).1.exports
      ≡ some (create_export p nanos now format filter m).0
unfolding create_export
created_found p nanos now format filter m = lookup-insert_same _ _ _

-- Over the memory repository, an export job does not stay pending: CreateExport either returns the job
-- completed, or returns an error, the job failed with the error's message; and the job is stored so.
pub create_export-IsSettled :
    (p : Platform) (exporter : Exporter) (nanos now later : ℕ) (format : String)
    (filter : Option (Dict Value)) (m : MemoryRepository)
    → IsSettled
        (create_export p nanos now format filter m).0.id
        (Exporting.create_export p (memory_repository p) exporter nanos now later format filter m)
unfolding Exporting.create_export memory_repository
create_export-IsSettled p exporter nanos now later format filter m =
    settle-IsSettled p later (create_export p nanos now format filter m).0
      (create_export p nanos now format filter m).1 (created_found p nanos now format filter m) _
