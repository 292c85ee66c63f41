-- ===== src/App/Queries.antt =====
-- The change queries of internal/app/changes.go: changeQueryCacheKey, eventsForChangeQuery,
-- ListChanges, GetChange, GetChangeTimeline and GetChangeEvidence.
use evidra_gitops.Base.{
  ℕ, String, ◌<>◌, true, false, none, some, List, [], ◌∷◌, ◌++◌, ◌==◌, if◌then◌else◌, trim_space,
  to_lower, any, select,
}
use evidra_gitops.Base.Int.{pos}
use evidra_gitops.Base.Dict.{lookup}
use evidra_gitops.Result.{Result, ok, err, not_found, invalid_change_cursor}
use evidra_gitops.Event.{StoredEvent, is_zero_time, extension_bool}
use evidra_gitops.Event.Platform.{Platform}
use evidra_gitops.Store.{sort_stored_events}
use evidra_gitops.Store.Query.{TimelineQuery, TimelineResult}
use evidra_gitops.Changes.{Change, ChangeDetail}
use evidra_gitops.Changes.Evidence.{ApprovalEvidence, approvals_from_data}
use evidra_gitops.Changes.Build.{build_changes, build_changes_by_id}
use evidra_gitops.Changes.Filter.{
  ChangeQuery, ChangeListResult, filter_changes, filter_events_by_query, decode_change_cursor,
  apply_change_cursor, change_limit, change_page,
}
use evidra_gitops.App.{Repository, Cache, Service}

-- The text that changeQueryCacheKey hashes.
unfoldable pub cache_key_text : Platform → ChangeQuery → String
cache_key_text p q =
    q.subject.app
    <> "|"
    <> q.subject.environment
    <> "|"
    <> q.subject.cluster
    <> "|"
    <> p.unix_nano q.from
    <> "|"
    <> p.unix_nano q.to
    <> "|"
    <> trim_space q.q

-- changeQueryCacheKey
unfoldable pub change_query_cache_key : Platform → ChangeQuery → String
change_query_cache_key p q = p.sha256_hex (cache_key_text p q)

-- The timeline that a change query reads.
unfoldable pub timeline_query : ChangeQuery → TimelineQuery
timeline_query q = record {
  subject = q.subject.app;
  cluster = q.subject.cluster;
  namespace = q.subject.environment;
  from = q.from;
  to = q.to;
  source = "";
  type = "";
  correlation_key = "";
  correlation_value = "";
  include_supporting = true;
  limit = pos 500;
  cursor = "";
}

unfoldable pub events_of_timeline : ChangeQuery → Result TimelineResult → Result (List StoredEvent)
events_of_timeline q (err failure) = err failure
events_of_timeline q (ok res) =
    if trim_space q.q == "" then ok res.items else ok (filter_events_by_query res.items q.q)

-- The key of an approval in `seenApprovals`.
unfoldable pub approval_key : ApprovalEvidence → String
approval_key a =
    to_lower (trim_space a.source)
    <> "|"
    <> to_lower (trim_space a.identity)
    <> "|"
    <> trim_space a.timestamp
    <> "|"
    <> trim_space a.reference
    <> "|"
    <> trim_space a.summary

-- The inner loop of GetChangeEvidence; `seen` holds the keys that were met.
unfoldable pub new_approvals :
    List String → List ApprovalEvidence → List ApprovalEvidence × List String
new_approvals seen [] = ([], seen)
new_approvals seen (a ∷ rest) = elim (any (λ k. k == approval_key a) seen) [
  | true ↦ new_approvals seen rest
  | false ↦
      let (approvals, met) = new_approvals (approval_key a ∷ seen) rest in (a ∷ approvals, met)
]

-- The approvals that the outer loop collects.
unfoldable pub all_approvals : Platform → List String → List StoredEvent → List ApprovalEvidence
all_approvals p seen [] = []
all_approvals p seen (e ∷ es) =
    let (approvals, met) = new_approvals seen (approvals_from_data p e.payload) in
    approvals ++ all_approvals p met es

pub record ChangeEvidence : Type 0 where
  pub change : Change
  pub supporting_observations : List StoredEvent
  pub approvals : List ApprovalEvidence

unfoldable pub evidence_of : Platform → ChangeDetail → ChangeEvidence
evidence_of p c = record {
  change = c.change;
  supporting_observations =
      select (λ e. extension_bool e.extensions "supporting_observation") c.events;
  approvals = all_approvals p [] c.events;
}

-- The end of ListChanges, from its projected changes on.
unfoldable pub listed : Platform → ChangeQuery → List Change → Result ChangeListResult
listed p q changes = elim (decode_change_cursor p q.cursor) [
  | err failure ↦ err invalid_change_cursor
  | ok (ts, id) ↦ ok (
      change_page p (change_limit q.limit)
        (if is_zero_time ts then changes else apply_change_cursor changes ts id))
]

-- What GetChange makes of the events of its query.
unfoldable pub change_of : Platform → ℕ → String → List StoredEvent → Result ChangeDetail
change_of p now id events = elim (lookup id (build_changes_by_id p now events)) [
  | none ↦ err not_found
  | some d ↦ ok (record d { events = sort_stored_events d.events })
]

module _ {R C : Type 0} (p : Platform) (repository : Repository R) (cache : Cache C) where
  -- What the repository answers to a change query: eventsForChangeQuery without its cache.
  unfoldable pub asked : ChangeQuery → R → Result (List StoredEvent)
  asked q repo = events_of_timeline q (repository.query_timeline (timeline_query q) repo)

  -- The part of eventsForChangeQuery after a miss.
  unfoldable pub fetched :
      ℕ → ChangeQuery → String → Service R C → Result (List StoredEvent) × Service R C
  fetched now q key s = elim (asked q s.repo) [
    | err failure ↦ (err failure, s)
    | ok events ↦ (ok events, record s { change_cache = cache.add now key events s.change_cache })
  ]

  -- eventsForChangeQuery, when nothing comes between its steps; App/Interleaved has them one by one.
  unfoldable pub events_for_change_query :
      ℕ → ChangeQuery → Service R C → Result (List StoredEvent) × Service R C
  events_for_change_query now q s =
      let key = change_query_cache_key p q in
      let (found, change_cache) = cache.get now key s.change_cache in
      elim found [
        | some cached ↦ (ok cached, record s { change_cache = change_cache })
        | none ↦ fetched now q key (record s { change_cache = change_cache })
      ]

  -- The rest of a method, on the events of its query.
  unfoldable pub with_events :
      {A : Type 0}
      → (List StoredEvent → Result A)
      → Result (List StoredEvent) × Service R C
      → Result A × Service R C
  with_events rest (err failure, s) = (err failure, s)
  with_events rest (ok events, s) = (rest events, s)

  -- ListChanges
  unfoldable pub list_changes :
      ℕ → ChangeQuery → Service R C → Result ChangeListResult × Service R C
  list_changes now q s =
      with_events (λ events. listed p q (filter_changes (build_changes p now events) q))
        (events_for_change_query now q s)

  -- GetChange
  unfoldable pub get_change :
      ℕ → String → ChangeQuery → Service R C → Result ChangeDetail × Service R C
  get_change now id q s = with_events (change_of p now id) (events_for_change_query now q s)

  unfoldable pub with_change :
      {A : Type 0} → (ChangeDetail → A) → Result ChangeDetail × Service R C → Result A × Service R C
  with_change rest (err failure, s) = (err failure, s)
  with_change rest (ok c, s) = (ok (rest c), s)

  -- GetChangeTimeline
  unfoldable pub get_change_timeline :
      ℕ → String → ChangeQuery → Service R C → Result (List StoredEvent) × Service R C
  get_change_timeline now id q s = with_change (λ c. c.events) (get_change now id q s)

  -- GetChangeEvidence
  unfoldable pub get_change_evidence :
      ℕ → String → ChangeQuery → Service R C → Result ChangeEvidence × Service R C
  get_change_evidence now id q s = with_change (evidence_of p) (get_change now id q s)
