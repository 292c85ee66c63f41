-- ===== src/Tests/Store.antt =====
-- The repository of internal/store/store.go at concrete events.
use evidra_gitops.Base.{
  ◌≡◌, refl, length, some, List, [], ◌∷◌, arith, select, trim_space, All, true, ◌≤◌,
}
use evidra_gitops.Base.Dict.{lookup, values, insert}
use evidra_gitops.Event.{StoredEvent, extension_bool}
use evidra_gitops.Event.Hash.{compute_integrity_hash}
use evidra_gitops.Store.{
  new_memory_repository, ingest_event, accepted, sort_stored_events, is_valid_event, duplicate,
  hashed, store_event, event_less,
}
use evidra_gitops.Store.Cursor.{encode_cursor, decode_cursor}
use evidra_gitops.Store.Ingest.{ingest_event_twice}
use evidra_gitops.Store.History.{
  IsWellFormed, run, run-IsWellFormed, lookup-run, ingest, new_memory_repository-IsWellFormed,
  delete, Operation,
}
use evidra_gitops.Store.Timeline.{query_timeline_sound, query_timeline-perm}
use evidra_gitops.Store.Query.{
  matches, TimelineResult, query_timeline, page, timeline_limit, kept, behind_cursor, filtered_out,
}
use evidra_gitops.Base.Sort.Distinct.{IsAscending}
use mathlib.Core.List.{Permᴰ}
use evidra_gitops.Store.Pages.{timeline, fetch_all}
use evidra_gitops.Store.Pages.Complete.{fetch_all_complete}
use evidra_gitops.Result.{ok}
use evidra_gitops.Tests.Standard.{
  standard, standard-IsLawful, first, second, third, everything, ingested, sample, held, marked,
  empty_canonical, joined,
}

ingested-IsWellFormed : IsWellFormed ingested
ingested-IsWellFormed =
    run-IsWellFormed standard (ingest 9 first ∷ ingest 10 second ∷ ingest 11 third ∷ [])
      new_memory_repository new_memory_repository-IsWellFormed

three : length (timeline everything ingested) ≡ 3
unfolding timeline sort_stored_events select matches filtered_out values run ingest_event
    is_valid_event hashed compute_integrity_hash empty_canonical store_event lookup insert sample
    extension_bool marked
three = refl

fetch_all_complete_example :
    fetch_all standard 4 everything ingested ≡ some (timeline everything ingested)
fetch_all_complete_example =
    fetch_all_complete standard standard-IsLawful everything ingested ingested-IsWellFormed 4
      (omega (arith, three))

lookup-run_example :
    lookup "e1" (run standard (delete "e1" ∷ ingest 30 second ∷ []) held).events ≡ some first
lookup-run_example =
    lookup-run standard (delete "e1" ∷ ingest 30 second ∷ []) held "e1" first
      (unfold lookup sample in refl)

fresh : (ingest_event standard 9 first new_memory_repository).0 ≡ ok (accepted, 9)
unfolding ingest_event is_valid_event hashed compute_integrity_hash empty_canonical store_event
    lookup sample
fresh = refl

ingest_event_twice_example :
    ingest_event standard 12 first (ingest_event standard 9 first new_memory_repository).1
    ≡ (ok (duplicate, 9), (ingest_event standard 9 first new_memory_repository).1)
ingest_event_twice_example =
    ingest_event_twice standard 9 12 9 first new_memory_repository (unfold sample in refl) fresh

run-IsWellFormed_example :
    IsWellFormed (run standard (ingest 30 first ∷ delete "e1" ∷ []) new_memory_repository)
run-IsWellFormed_example =
    run-IsWellFormed standard (ingest 30 first ∷ delete "e1" ∷ []) new_memory_repository
      new_memory_repository-IsWellFormed

abbrev stored_first : StoredEvent
stored_first = record first {
  integrity_hash = marked (joined "e1" (joined "argocd" "succeeded"));
  ingested_at = 9;
}

abbrev first_page : TimelineResult
first_page = record { items = stored_first ∷ []; next_cursor = encode_cursor standard 5 "e1" }

asked : query_timeline standard everything ingested ≡ ok first_page
unfolding query_timeline page decode_cursor trim_space timeline_limit kept behind_cursor
    sort_stored_events select matches filtered_out values run ingest_event is_valid_event hashed
    compute_integrity_hash empty_canonical store_event lookup insert sample extension_bool marked
asked = refl

query_timeline_sound_example :
    IsAscending event_less first_page.items
    × All (λ e. matches everything e ≡ true) first_page.items
    × (length first_page.items ≤ 500)
query_timeline_sound_example =
    query_timeline_sound standard everything ingested first_page ingested-IsWellFormed asked

abbrev two : List Operation
two = ingest 9 first ∷ ingest 10 second ∷ []

abbrev two_swapped : List Operation
two_swapped = ingest 10 second ∷ ingest 9 first ∷ []

swapped_values :
    Permᴰ
      (values (run standard two new_memory_repository).events)
      (values (run standard two_swapped new_memory_repository).events)
unfolding values run ingest_event is_valid_event hashed compute_integrity_hash empty_canonical
    store_event lookup insert sample marked
swapped_values = Permᴰ.swap refl refl

query_timeline-perm_example :
    query_timeline standard everything (run standard two new_memory_repository)
    ≡ query_timeline standard everything (run standard two_swapped new_memory_repository)
query_timeline-perm_example =
    query_timeline-perm standard everything (run standard two new_memory_repository)
      (run standard two_swapped new_memory_repository)
      (run-IsWellFormed standard two new_memory_repository new_memory_repository-IsWellFormed)
      swapped_values
