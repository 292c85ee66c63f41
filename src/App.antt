-- ===== src/App.antt =====
-- internal/app/service.go and the methods of Service in internal/app/changes.go. The repository, the
-- cache of change queries and the exporter are interfaces; an operation takes the times that it
-- reads, and returns its result with the state after it. Spans and metrics are left out.
pub mod Queries
pub mod Listing
pub mod Interleaved
pub mod Memory
pub mod Exporting
use evidra_gitops.Base.{
  ℕ, String, ◌<>◌, Option, none, some, List, [], ◌∷◌, ◌==◌, if◌then◌else◌, split_once, trim_space,
  zero, suc,
}
use evidra_gitops.Base.Int.{ℤ}
use evidra_gitops.Base.Dict.{Dict}
use evidra_gitops.Result.{Error, Result, ok, err, other}
use evidra_gitops.Value.{Value}
use evidra_gitops.Event.{StoredEvent}
use evidra_gitops.Event.Platform.{Platform}
use evidra_gitops.Store.{IngestStatus, ExportJob}
use evidra_gitops.Store.Query.{TimelineQuery, TimelineResult, SubjectInfo}
use evidra_gitops.Changes.Filter.{ParsedSubject}

-- store.Repository of internal/store/store.go
pub record Repository (R : Type 0) : Type 0 where
  pub ingest_event : ℕ → StoredEvent → R → Result (IngestStatus × ℕ) × R
  pub get_event : String → R → Result StoredEvent
  pub query_timeline : TimelineQuery → R → Result TimelineResult
  pub list_subjects : R → Result (List SubjectInfo)
  pub events_by_extension : String → String → ℤ → R → Result (List StoredEvent)
  -- `nanos` and `now` are two readings of the clock
  pub create_export : ℕ → ℕ → String → Option (Dict Value) → R → Result ExportJob × R
  pub set_export_completed : ℕ → String → String → R → Result (Unit {0}) × R
  pub set_export_failed : ℕ → String → String → R → Result (Unit {0}) × R
  pub get_export : String → R → Result ExportJob
  pub delete_event : String → R → Result (Unit {0}) × R

-- expirable.LRU of github.com/hashicorp/golang-lru: each call reads the clock and may drop entries.
pub record Cache (C : Type 0) : Type 0 where
  pub get : ℕ → String → C → Option (List StoredEvent) × C
  pub add : ℕ → String → List StoredEvent → C → C
  pub purge : C → C

-- app.Exporter
pub record Exporter : Type 0 where
  pub create_evidence_pack : String → List StoredEvent → Result String
  pub read_artifact : String → Result String

-- The state of a Service.
pub record Service (R C : Type 0) : Type 0 where
  pub repo : R
  pub change_cache : C

-- `Error()` of an error
unfoldable pub message : Error → String
message e = elim e [
  | Error.not_found ↦ "not found"
  | Error.conflict ↦ "conflict"
  | Error.invalid_input ↦ "invalid input"
  | Error.append_only ↦ "append-only mutation not allowed"
  | Error.invalid_cursor ↦ "invalid cursor"
  | Error.invalid_change_cursor ↦ "invalid change cursor"
  | Error.rate_limited ↦ "rate limited"
  | Error.other text ↦ text
]

-- splitN, at a separator of one byte; `n` is the number of parts at most.
unfoldable pub split_n : ℕ → ℕ → String → List String
unfolding split_once
split_n sep zero input = input ∷ []
split_n sep (suc zero) input = input ∷ []
split_n sep (suc (suc n)) input = elim (split_once sep input) [
  | none ↦ input ∷ []
  | some (front, back) ↦ front ∷ split_n sep (suc n) back
]

unfoldable pub subject_of_parts : List String → Result ParsedSubject
subject_of_parts (app ∷ environment ∷ cluster ∷ rest) =
    ok (record { app = app; environment = environment; cluster = cluster })
subject_of_parts _ = err (other "invalid subject")

-- ParseSubject
unfoldable pub parse_subject : String → Result ParsedSubject
parse_subject subject = subject_of_parts (split_n b':' 3 subject)

module _ {R C : Type 0} (repository : Repository R) (cache : Cache C) where
  -- Service.IngestEvent
  unfoldable pub ingest_event :
      ℕ → StoredEvent → Service R C → Result (IngestStatus × ℕ) × Service R C
  ingest_event now e s =
      let (answer, repo) = repository.ingest_event now e s.repo in
      (
        answer,
        elim answer [
          | err failure ↦ record s { repo = repo }
          | ok status ↦ record { repo = repo; change_cache = cache.purge s.change_cache }
        ],
      )
