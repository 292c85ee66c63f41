-- ===== src/Store.antt =====
-- internal/store/store.go: the in-memory repository. An operation takes the time that it reads
-- from the clock, and returns its results with the new state.
pub mod Cursor
pub mod Query
pub mod Exports
pub mod Ingest
pub mod Held
pub mod History
pub mod Order
pub mod Timeline
pub mod Pages
use evidra_gitops.Base.{
  ℕ, String, Bool, true, false, ◌||◌, Option, none, some, List, ◌==◌, if◌then◌else◌, str_ltb, eqb,
  ltb,
}
use evidra_gitops.Base.Dict.{Dict, lookup, insert}
use evidra_gitops.Base.Sort.{sort_by}
use evidra_gitops.Result.{
  Error, Result, ok, err, not_found, conflict, invalid_input, append_only, other,
}
use evidra_gitops.Value.{Value}
use evidra_gitops.Event.{StoredEvent, is_zero_time}
use evidra_gitops.Event.Platform.{Platform}
use evidra_gitops.Event.Hash.{compute_integrity_hash}

pub data IngestStatus : Type 0 where
  accepted duplicate : IngestStatus

-- `ExportJob.Status`
pub data ExportStatus : Type 0 where
  pending completed failed : ExportStatus

-- model.ExportJob of internal/model/event.go
pub record ExportJob : Type 0 where
  pub id : String
  pub status : ExportStatus
  pub format : String
  pub filter : Option (Dict Value)
  pub artifact_uri : String
  pub error : String
  pub created_at : ℕ
  pub completed_at : Option ℕ

-- MemoryRepository, under its lock
pub record MemoryRepository : Type 0 where
  pub events : Dict StoredEvent
  pub exports : Dict ExportJob

-- NewMemoryRepository
abbrev pub new_memory_repository : MemoryRepository
new_memory_repository = record { events = List.[]; exports = List.[] }

unfoldable pub is_valid_event : StoredEvent → Bool
is_valid_event e =
    if e.id == "" || e.source == "" || e.type == ""
    then false
    else if e.payload == "" || e.payload == "null"
    then false
    else if is_zero_time e.time
    then false
    else true

-- validateStoredEvent
unfoldable pub validate_stored_event : StoredEvent → Result (Unit {0})
validate_stored_event e = if is_valid_event e then ok tt else err invalid_input

-- The event with its hash computed where it brings none; `none` is an error of the encoder.
unfoldable pub hashed : Platform → StoredEvent → Option StoredEvent
hashed p e =
    if e.integrity_hash == ""
    then elim (compute_integrity_hash p e) [
      | none ↦ none
      | some h ↦ some (record e { integrity_hash = h })
    ]
    else some e

-- What IngestEvent returns, and the repository after it.
abbrev pub Ingested : Type 0
Ingested = Result (IngestStatus × ℕ) × MemoryRepository

-- The part of IngestEvent under the lock.
unfoldable pub store_event : ℕ → StoredEvent → MemoryRepository → Ingested
store_event now e m = elim (lookup e.id m.events) [
  | some existing ↦
      if existing.integrity_hash == e.integrity_hash
      then (ok (duplicate, existing.ingested_at), m)
      else (err conflict, m)
  | none ↦
      let stamped = if is_zero_time e.ingested_at then record e { ingested_at = now } else e in
      (ok (accepted, now), record m { events = insert e.id stamped m.events })
]

-- IngestEvent
unfoldable pub ingest_event : Platform → ℕ → StoredEvent → MemoryRepository → Ingested
unfolding validate_stored_event
ingest_event p now e m = elim (validate_stored_event e) [
  | err failure ↦ (err failure, m)
  | ok _ ↦ elim (hashed p e) [ none ↦ (err (other "marshal"), m) | some h ↦ store_event now h m ]
]

-- GetEvent
unfoldable pub get_event : String → MemoryRepository → Result StoredEvent
unfolding lookup
get_event id m = elim (lookup id m.events) [ none ↦ err not_found | some e ↦ ok e ]

-- DeleteEvent
unfoldable pub delete_event : String → MemoryRepository → Result (Unit {0}) × MemoryRepository
delete_event id m = (err append_only, m)

-- The `less` of sortStoredEvents: by time, then by id.
unfoldable pub event_less : StoredEvent → StoredEvent → Bool
event_less a b = if eqb a.time b.time then str_ltb a.id b.id else ltb a.time b.time

-- sortStoredEvents
unfoldable pub sort_stored_events : List StoredEvent → List StoredEvent
unfolding sort_by event_less
sort_stored_events items = sort_by event_less items
