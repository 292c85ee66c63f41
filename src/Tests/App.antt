-- ===== src/Tests/App.antt =====
-- The service of internal/app/service.go and the API of internal/api at concrete values.
use mathlib.Core.Option.{some-injective}
use evidra_gitops.Base.{
  sym, String, ◌≡◌, ◌==◌, ◌⊎◌, refl, ◌∙◌, none, some, List, [], ◌∷◌, inl, inr, arith, eq_iff,
  Bool-cases, suc, All, length, false, ℕ,
}
use evidra_gitops.Base.Dict.{Dict, lookup, insert, lookup-insert, values}
use evidra_gitops.Base.Int.{pos}
use evidra_gitops.Result.{Error, ok, err, Result}
use evidra_gitops.Event.{StoredEvent, is_zero_time}
use evidra_gitops.Store.{MemoryRepository, new_memory_repository, accepted, IngestStatus}
use evidra_gitops.Changes.Filter.{ChangeQuery}
use evidra_gitops.App.{Cache, Service, Exporter, ingest_event}
use evidra_gitops.App.Listing.{asked_changes, follow}
use evidra_gitops.App.Listing.Complete.{follow_complete}
use evidra_gitops.App.Queries.{
  asked, change_query_cache_key, timeline_query, events_of_timeline, cache_key_text,
}
use evidra_gitops.App.Interleaved.{
  Shared, Step, looking, asking, adding, storing, purging, take, take_all, repos_of, quiet, look,
  ask_in, add_in, at,
}
use evidra_gitops.App.Interleaved.Given.{IsCache, IsOneOf}
use evidra_gitops.App.Interleaved.Answers.{take_all_given}
use evidra_gitops.App.Memory.{memory_repository, IsSettled, create_export-IsSettled}
use evidra_gitops.App.Exporting
use evidra_gitops.Store.Exports
use evidra_gitops.Tests.Standard.{
  standard, first, second, sample, standard-IsLawful, standard-ReadsMaps,
}

-- A cache that keeps everything.
abbrev pub keeping : Cache (Dict (List StoredEvent))
keeping = record {
  get = λ now key c. (lookup key c, c);
  add = λ now key events c. insert key events c;
  purge = λ c. [];
}

added_before :
    (key k : String) (added events : List StoredEvent) (c : Dict (List StoredEvent))
    → lookup k (insert key added c) ≡ some events
    → ((k ≡ key) × (events ≡ added)) ⊎ (lookup k c ≡ some events)
added_before key k added events c h =
    let found = sym (lookup-insert key k added c) ∙ h in
    elim (Bool-cases (key == k)) [
      | inl same ↦ inl (sym ((eq_iff key k).0 same), some-injective _ _ (sym (rw same at found)))
      | inr other ↦ inr (rw other at found)
    ]

keeping-IsCache : IsCache keeping
keeping-IsCache = record {
  Holds = λ c key events. lookup key c ≡ some events;
  get-Holds = λ now key c events h. h;
  Holds-get = λ now key c k events h. h;
  Holds-add = λ now key added c k events h. added_before key k added events c h;
  Holds-purge = λ c k events h. unfold lookup in absurd (ground arith);
}

abbrev query : ChangeQuery
query = record {
  subject = record { app = "app"; environment = ""; cluster = "" };
  from = 0;
  to = 0;
  q = "";
  result_status = "";
  health_status = "";
  external_change_id = "";
  external_change_id_state = "";
  ticket_id = "";
  ticket_id_state = "";
  approval_reference = "";
  has_approvals = "";
  limit = pos 0;
  cursor = "";
}

-- An ingest and its purge come between the query and the addition of the first call; the second call is
-- answered from the cache, without the event.
abbrev steps : List Step
steps = looking 9 1 query ∷ asking 1 ∷ storing 10 first ∷ purging ∷ adding 11 1 ∷ []

-- The service after an ingest.
abbrev ingested : Result (IngestStatus × ℕ) × Service MemoryRepository (Dict (List StoredEvent))
ingested =
    ingest_event (memory_repository standard) keeping 8 second
      (record { repo = new_memory_repository; change_cache = [] })

-- What the first ingest stores.
abbrev kept : List StoredEvent
kept = values ingested.1.repo.events

abbrev start : Shared MemoryRepository (Dict (List StoredEvent))
start = quiet standard (memory_repository standard) keeping ingested.1

ingested_at_eight : ingested.0 ≡ ok (accepted, 8)
unfolding ingest_event memory_repository lookup evidra_gitops.Store.ingest_event
    evidra_gitops.Store.is_valid_event sample evidra_gitops.Store.hashed
    evidra_gitops.Event.Hash.compute_integrity_hash evidra_gitops.Tests.Standard.empty_canonical
    evidra_gitops.Store.store_event
ingested_at_eight = refl

stale_hit :
    (take standard
      (memory_repository standard)
      keeping
      (looking 12 2 query)
      (take_all standard (memory_repository standard) keeping steps start)).0
    ≡ some (query, ok kept)
unfolding ingest_event take take_all look ask_in add_in at change_query_cache_key asked
    memory_repository lookup insert evidra_gitops.Store.Query.query_timeline timeline_query
    events_of_timeline cache_key_text evidra_gitops.Store.Cursor.decode_cursor
    evidra_gitops.Base.trim_space evidra_gitops.Tests.Standard.marked
    evidra_gitops.Tests.Standard.tally evidra_gitops.Store.Query.page
    evidra_gitops.Store.Query.timeline_limit evidra_gitops.Store.sort_stored_events
    evidra_gitops.Store.Query.kept evidra_gitops.Base.select evidra_gitops.Base.Dict.values
    evidra_gitops.Store.ingest_event evidra_gitops.Store.is_valid_event sample
    evidra_gitops.Store.hashed evidra_gitops.Event.Hash.compute_integrity_hash
    evidra_gitops.Tests.Standard.empty_canonical evidra_gitops.Store.store_event
    evidra_gitops.Store.Query.matches evidra_gitops.Store.Query.filtered_out
    evidra_gitops.Store.Query.behind_cursor
stale_hit = refl

take_all_given_example :
    (q' : ChangeQuery) × (change_query_cache_key standard q'
      ≡ change_query_cache_key standard query)
    × (r' : MemoryRepository) × IsOneOf r'
        (repos_of standard (memory_repository standard) keeping steps start)
    × (asked standard (memory_repository standard) keeping q' r' ≡ ok kept)
take_all_given_example =
    take_all_given standard (memory_repository standard) keeping keeping-IsCache 8 second
      (record { repo = new_memory_repository; change_cache = [] }) (accepted, 8) ingested_at_eight
      steps (looking 12 2 query) query kept stale_hit

abbrev exporter : Exporter
exporter = record {
  create_evidence_pack = λ id events. err (Error.other "disk full");
  read_artifact = λ path. ok path;
}

create_export-IsSettled_example :
    IsSettled (Exports.create_export standard 5 5 "json" none new_memory_repository).0.id (
      Exporting.create_export standard
        (memory_repository standard)
        exporter
        5
        5
        6
        "json"
        none
        new_memory_repository)
create_export-IsSettled_example =
    create_export-IsSettled standard exporter 5 5 6 "json" none new_memory_repository

two_events : All (λ (e : StoredEvent). is_zero_time e.time ≡ false) (first ∷ second ∷ [])
unfolding sample
two_events = (refl, (refl, tt))

one_each : ChangeQuery
one_each = record query { limit = pos 1 }

follow_complete_example :
    follow standard
      (suc (length (asked_changes standard 9 one_each (first ∷ second ∷ []))))
      (record one_each { cursor = "" })
      (asked_changes standard 9 one_each (first ∷ second ∷ []))
    ≡ some (asked_changes standard 9 one_each (first ∷ second ∷ []))
follow_complete_example =
    follow_complete standard 9 one_each (first ∷ second ∷ [])
      (suc (length (asked_changes standard 9 one_each (first ∷ second ∷ [])))) standard-IsLawful
      standard-ReadsMaps two_events (omega arith)
