-- ===== src/Store/Pages.antt =====
-- A client that follows the cursors of QueryTimeline of internal/store/store.go.
pub mod Steps
pub mod Complete
use mathlib.Core.List.{append_assoc, append-nil}
use mathlib.Core.Path.{subst, fun_ext}
use evidra_gitops.Base.{
  ℕ, zero, suc, ◌+◌, ◌-◌, ◌≤◌, ◌<◌, String, ◌≡◌, ◌≢◌, ◌⊎◌, refl, sym, ap, ◌∙◌, Bool, true, false,
  ◌&&◌, Option, none, some, List, [], ◌∷◌, ◌++◌, ◌==◌, arith, eq_iff, inl, inr, select, All,
  All-select, take, drop, length, last?, take-append-drop, length-drop, if◌then◌else◌, ltb,
  trim_space, Bool-cases,
}
use evidra_gitops.Base.Dict.{values, All-values}
use evidra_gitops.Base.Sort.{sort_by}
use evidra_gitops.Base.Sort.Laws.{select-sort_by, All-sort_by}
use evidra_gitops.Base.Sort.Distinct.{IsAscending, sort_by-IsAscending, select-IsDistinct}
use evidra_gitops.Base.Sort.Suffix.{select_behind, take_last, All-append_right}
use evidra_gitops.Event.{StoredEvent}
use evidra_gitops.Event.Platform.{Platform, IsLawful}
use evidra_gitops.Result.{Result, ok, err, ◌>>=◌}
use evidra_gitops.Store.{MemoryRepository, is_valid_event, event_less, sort_stored_events}
use evidra_gitops.Store.Cursor.{encode_cursor, decode_cursor, decode_cursor-encode_cursor}
use evidra_gitops.Store.Query.{
  TimelineQuery, TimelineResult, timeline_limit, filtered_out, matches, behind_cursor, kept, page,
  query_timeline,
}
use evidra_gitops.Store.History.{IsWellFormed}
use evidra_gitops.Store.Order.{event_less-IsOrder, events-IsDistinct}
use evidra_gitops.Store.Timeline.{timeline_limit-pos}

-- All events that pass the filters of a query, in the order of the timeline.
unfoldable pub timeline : TimelineQuery → MemoryRepository → List StoredEvent
timeline q m = sort_stored_events (select (matches q) (values m.events))

unfoldable pub join_pages :
    Result TimelineResult → (String → Option (List StoredEvent)) → Option (List StoredEvent)
join_pages (err failure) next = none
join_pages (ok r) next =
    if r.next_cursor == ""
    then some r.items
    else elim (next r.next_cursor) [ none ↦ none | some rest ↦ some (r.items ++ rest) ]

-- Ask, and ask again with the cursor of the answer, until an answer has none. `none` is an error of
-- the repository, or that the rounds have run out.
unfoldable pub fetch_all :
    Platform → ℕ → TimelineQuery → MemoryRepository → Option (List StoredEvent)
unfolding join_pages
fetch_all p zero q m = none
fetch_all p (suc rounds) q m =
    join_pages (query_timeline p q m) (λ c. fetch_all p rounds (record q { cursor = c }) m)
