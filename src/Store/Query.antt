-- ===== src/Store/Query.antt =====
-- QueryTimeline, ListSubjects and EventsByExtension of internal/store/store.go.
use evidra_gitops.Base.{
  ℕ, String, ◌<>◌, Bool, true, false, not, ◌&&◌, ◌||◌, Option, none, some, List, [], ◌∷◌, ◌==◌,
  if◌then◌else◌, ltb, eqb, str_ltb, length, take, last?, select, any, min,
}
use evidra_gitops.Base.Int.{ℤ, pos, negsuc}
use evidra_gitops.Base.Dict.{values}
use evidra_gitops.Base.Sort.{sort_by}
use evidra_gitops.Result.{Result, ok, err, invalid_input, ◌>>=◌}
use evidra_gitops.Event.{StoredEvent, is_zero_time, extension_string, extension_bool}
use evidra_gitops.Event.Platform.{Platform}
use evidra_gitops.Store.{MemoryRepository, sort_stored_events}
use evidra_gitops.Store.Cursor.{encode_cursor, decode_cursor}

pub record TimelineQuery : Type 0 where
  pub subject : String
  pub cluster : String
  pub namespace : String
  pub from : ℕ
  pub to : ℕ
  pub source : String
  pub type : String
  pub correlation_key : String
  pub correlation_value : String
  pub include_supporting : Bool
  pub limit : ℤ
  pub cursor : String

pub record TimelineResult : Type 0 where
  pub items : List StoredEvent
  pub next_cursor : String

-- 50 where the query has none, and 500 at most
unfoldable pub timeline_limit : ℤ → ℕ
timeline_limit (pos n) = if eqb n 0 then 50 else min n 500
timeline_limit (negsuc n) = 50

abbrev set_and_differs : String → String → Bool
set_and_differs want have = not (want == "") && not (have == want)

-- The conditions of the loop that make it `continue`, but for the cursor's.
unfoldable pub filtered_out : TimelineQuery → StoredEvent → Bool
filtered_out q e =
    (not (is_zero_time q.from) && ltb e.time q.from)
    || (not (is_zero_time q.to) && ltb q.to e.time)
    || set_and_differs q.subject e.subject
    || (not (q.subject == "")
        && set_and_differs q.cluster (extension_string e.extensions "cluster"))
    || (not (q.subject == "")
        && set_and_differs q.namespace (extension_string e.extensions "namespace"))
    || set_and_differs q.source e.source
    || set_and_differs q.type e.type
    || (not (q.correlation_key == "")
        && set_and_differs q.correlation_value (extension_string e.extensions q.correlation_key))
    || (not q.include_supporting && extension_bool e.extensions "supporting_observation")

-- Behind the cursor: later, or as late with a greater id. A zero time is no cursor.
unfoldable pub behind_cursor : ℕ → String → StoredEvent → Bool
behind_cursor ts id e =
    is_zero_time ts || not (ltb e.time ts || (eqb e.time ts && not (str_ltb id e.id)))

unfoldable pub matches : TimelineQuery → StoredEvent → Bool
matches q e = not (filtered_out q e)

-- The events that the loop keeps.
unfoldable pub kept : TimelineQuery → ℕ → String → MemoryRepository → List StoredEvent
kept q ts id m = select (λ e. matches q e && behind_cursor ts id e) (values m.events)

cursor_of : Platform → Option StoredEvent → String
cursor_of p none = ""
cursor_of p (some last) = encode_cursor p last.time last.id

-- The first page of a sorted list, with a cursor if more is left.
unfoldable pub page : Platform → ℕ → List StoredEvent → TimelineResult
unfolding cursor_of
page p limit items =
    if ltb limit (length items)
    then record { items = take limit items; next_cursor = cursor_of p (last? (take limit items)) }
    else record { items = items; next_cursor = "" }

-- QueryTimeline
unfoldable pub query_timeline : Platform → TimelineQuery → MemoryRepository → Result TimelineResult
query_timeline p q m = decode_cursor p q.cursor >>= λ (ts, id).
    ok (page p (timeline_limit q.limit) (sort_stored_events (kept q ts id m)))

pub record SubjectInfo : Type 0 where
  pub subject : String
  pub cluster : String
  pub namespace : String

unfoldable pub subject_info : StoredEvent → SubjectInfo
subject_info e = record {
  subject = e.subject;
  cluster = extension_string e.extensions "cluster";
  namespace = extension_string e.extensions "namespace";
}

unfoldable pub subject_key : SubjectInfo → String
subject_key s = s.subject <> ":" <> s.cluster <> ":" <> s.namespace

-- The loop of ListSubjects; `seen` holds the keys that were met.
unfoldable pub distinct_subjects : List String → List StoredEvent → List SubjectInfo
unfolding subject_info subject_key any
distinct_subjects seen [] = []
distinct_subjects seen (e ∷ es) =
    let key = subject_key (subject_info e) in
    elim (any (λ k. k == key) seen) [
      | true ↦ distinct_subjects seen es
      | false ↦ subject_info e ∷ distinct_subjects (key ∷ seen) es
    ]

unfoldable pub subject_less : SubjectInfo → SubjectInfo → Bool
unfolding subject_key
subject_less a b = str_ltb (subject_key a) (subject_key b)

-- ListSubjects
unfoldable pub list_subjects : MemoryRepository → List SubjectInfo
unfolding distinct_subjects subject_less sort_by values
list_subjects m = sort_by subject_less (distinct_subjects [] (values m.events))

unfoldable pub extension_limit : ℤ → ℕ
extension_limit (pos n) = if eqb n 0 then 100 else n
extension_limit (negsuc n) = 100

-- EventsByExtension. `out[:limit]` where the list is longer is `take`.
unfoldable pub events_by_extension :
    String → String → ℤ → MemoryRepository → Result (List StoredEvent)
unfolding extension_limit sort_stored_events select values
events_by_extension key value limit m =
    if key == "" || value == ""
    then err invalid_input
    else ok (
        take (extension_limit limit) (
          sort_stored_events
            (select (λ e. extension_string e.extensions key == value) (values m.events))))
