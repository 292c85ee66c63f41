-- ===== src/App/Exporting.antt =====
-- Service.CreateExport and exportItemsForJob of internal/app/service.go. The text of an error of
-- package time is not modelled.
use evidra_gitops.Base.{ℕ, String, ◌||◌, Option, none, some, List, [], ◌==◌, if◌then◌else◌, true}
use evidra_gitops.Base.Int.{pos}
use evidra_gitops.Base.Dict.{Dict, lookup}
use evidra_gitops.Result.{Result, ok, err, other, ◌>>=◌}
use evidra_gitops.Value.{
  Value, nil, bool, float64, int, int64, text, array, object, strings, string_map,
}
use evidra_gitops.Event.{StoredEvent}
use evidra_gitops.Event.Platform.{Platform}
use evidra_gitops.Store.{ExportJob}
use evidra_gitops.Store.Query.{TimelineQuery}
use evidra_gitops.Changes.Filter.{ParsedSubject}
use evidra_gitops.App.{Repository, Exporter, message, parse_subject}

-- `v, _ := raw.(string)`
unfoldable pub plain_text : Option Value → String
plain_text none = ""
plain_text (some (text s)) = s
plain_text (some nil) = ""
plain_text (some (bool b)) = ""
plain_text (some (float64 n)) = ""
plain_text (some (int n)) = ""
plain_text (some (int64 n)) = ""
plain_text (some (array vs)) = ""
plain_text (some (object fs)) = ""
plain_text (some (strings ss)) = ""
plain_text (some (string_map m)) = ""

unfoldable pub parsed_time : Option ℕ → Result ℕ
parsed_time none = err (other "cannot parse time")
parsed_time (some t) = ok t

-- The timeline that an export holds.
unfoldable pub export_query : ParsedSubject → ℕ → ℕ → TimelineQuery
export_query subject from to = record {
  subject = subject.app;
  cluster = subject.cluster;
  namespace = subject.environment;
  from = from;
  to = to;
  source = "";
  type = "";
  correlation_key = "";
  correlation_value = "";
  include_supporting = true;
  limit = pos 500;
  cursor = "";
}

module _ {R : Type 0} (p : Platform) (repository : Repository R) where
  unfoldable pub items_between : String → String → String → R → Result (List StoredEvent)
  unfolding parsed_time export_query
  items_between from_raw to_raw subject_raw repo =
      parsed_time (p.parse_rfc3339 from_raw) >>= λ from.
      parsed_time (p.parse_rfc3339 to_raw) >>= λ to. parse_subject subject_raw >>= λ subject.
      repository.query_timeline (export_query subject from to) repo >>= λ res. ok res.items

  -- exportItemsForJob
  unfoldable pub export_items_for_job : Option (Dict Value) → R → Result (List StoredEvent)
  unfolding plain_text items_between
  export_items_for_job none repo = ok []
  export_items_for_job (some filter) repo =
      let from_raw = plain_text (lookup "from" filter) in
      let to_raw = plain_text (lookup "to" filter) in
      let subject_raw = plain_text (lookup "subject" filter) in
      if from_raw == "" || to_raw == "" || subject_raw == ""
      then ok []
      else items_between from_raw to_raw subject_raw repo

  -- The artifact of a job, or the error of the first step that fails.
  unfoldable pub packed : Exporter → ExportJob → R → Result String
  packed exporter job repo =
      export_items_for_job job.filter repo >>= λ items. exporter.create_evidence_pack job.id items

  unfoldable pub completed_by : String → Result (Unit {0}) × R → Result ExportJob × R
  completed_by id (err failure, after) = (err failure, after)
  completed_by id (ok done, after) = (repository.get_export id after, after)

  -- What CreateExport does with the artifact, or with the error.
  unfoldable pub settle : ℕ → ExportJob → Result String → R → Result ExportJob × R
  settle now job (err failure) repo =
      (err failure, (repository.set_export_failed now job.id (message failure) repo).1)
  settle now job (ok path) repo =
      completed_by job.id (repository.set_export_completed now job.id path repo)

  -- CreateExport: `nanos`, `now` and `later` are its readings of the clock.
  unfoldable pub create_export :
      Exporter → ℕ → ℕ → ℕ → String → Option (Dict Value) → R → Result ExportJob × R
  create_export exporter nanos now later format filter repo =
      let (created, after) = repository.create_export nanos now format filter repo in
      elim created [
        | err failure ↦ (err failure, after)
        | ok job ↦ settle later job (packed exporter job after) after
      ]
