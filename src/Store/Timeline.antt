-- ===== src/Store/Timeline.antt =====
-- What QueryTimeline of internal/store/store.go returns.
use mathlib.Core.List.{Permᴰ}
use mathlib.Core.Path.{fun_ext}
use evidra_gitops.Base.{
  ℕ, zero, suc, ◌≤◌, ◌<◌, String, ◌≡◌, ◌⊎◌, ap, true, List, [], ◌∷◌, arith, inl, inr, All, All-map,
  All-select_self, All-take, take, length, length-take,
}
use evidra_gitops.Base.Int.{ℤ}
use evidra_gitops.Base.Dict.{values}
use evidra_gitops.Base.Sort.Laws.{All-sort_by}
use evidra_gitops.Base.Sort.Distinct.{IsAscending, sort_by-IsAscending, sort_by-perm}
use evidra_gitops.Base.Sort.Suffix.{select-perm}
use evidra_gitops.Event.{StoredEvent}
use evidra_gitops.Event.Platform.{Platform}
use evidra_gitops.Result.{ok, Result-cases, ◌>>=◌}
use evidra_gitops.Store.{MemoryRepository, event_less, sort_stored_events}
use evidra_gitops.Store.Cursor.{decode_cursor}
use evidra_gitops.Store.Query.{
  TimelineQuery, TimelineResult, timeline_limit, matches, kept, page, query_timeline,
}
use evidra_gitops.Store.History.{IsWellFormed}
use evidra_gitops.Store.Order.{event_less-IsOrder, kept-IsDistinct}

IsAscending-take :
    (n : ℕ) (xs : List StoredEvent) → IsAscending event_less xs → IsAscending event_less (take n xs)
IsAscending-take zero xs h = tt
IsAscending-take (suc n) [] h = tt
IsAscending-take (suc n) (x ∷ xs) h = (All-take _ n xs h.0, IsAscending-take n xs h.1)

timeline_limit-le : (n : ℤ) → timeline_limit n ≤ 500
unfolding timeline_limit
timeline_limit-le n = ground arith

pub timeline_limit-pos : (n : ℤ) → 0 < timeline_limit n
unfolding timeline_limit
timeline_limit-pos n = ground arith

module _ (p : Platform) (q : TimelineQuery) (m : MemoryRepository) where
  -- A query that returns has decoded its cursor.
  pub query_timeline_returns :
      (r : TimelineResult)
      → query_timeline p q m ≡ ok r
      → (ts : ℕ) × (id : String) × (r
          ≡ page p (timeline_limit q.limit) (sort_stored_events (kept q ts id m)))
  unfolding query_timeline
  query_timeline_returns r h = elim (Result-cases (decode_cursor p q.cursor)) [
    | inl ((ts, id), e) ↦ (ts, id, ground arith)
    | inr (failure, e) ↦ absurd (ground arith)
  ]

  kept-matches : (ts : ℕ) (id : String) → All (λ e. matches q e ≡ true) (kept q ts id m)
  unfolding kept
  kept-matches ts id = All-map _ _ (λ e h. ground arith) _ (All-select_self _ (values m.events))

  page-items :
      (n : ℕ) (xs : List StoredEvent)
      → ((page p n xs).items ≡ xs) ⊎ ((page p n xs).items ≡ take n xs)
  unfolding page
  page-items n xs = ground arith

  length-page : (n : ℕ) (xs : List StoredEvent) → length (page p n xs).items ≤ n
  unfolding page
  length-page n xs = ground (arith, length-take n xs)

  -- What a query returns is in order, no event twice, in range of the limit, and passes every filter.
  pub query_timeline_sound :
      (r : TimelineResult)
      → IsWellFormed m
      → query_timeline p q m ≡ ok r
      → IsAscending event_less r.items
        × All (λ e. matches q e ≡ true) r.items
        × (length r.items ≤ 500)
  query_timeline_sound r w h =
      let (ts, id, shape) = query_timeline_returns r h in
      let sorted = sort_stored_events (kept q ts id m) in
      let ascending =
        sort_by-IsAscending event_less event_less-IsOrder (kept q ts id m)
          (kept-IsDistinct m w q ts id) in
      let passing =
        All-sort_by event_less (λ e. matches q e ≡ true) (kept q ts id m) (kept-matches ts id) in
      rw shape (elim (page-items (timeline_limit q.limit) sorted) [
        | inl whole ↦ (
          rw whole (unfold sort_stored_events in ascending),
          rw whole (unfold sort_stored_events in passing),
          bounded sorted,
        )
        | inr cut ↦ (
          rw cut (unfold sort_stored_events in IsAscending-take _ _ ascending),
          rw cut (unfold sort_stored_events in All-take _ _ _ passing),
          bounded sorted,
        )
      ])
    where
      bounded : (xs : List StoredEvent) → length (page p (timeline_limit q.limit) xs).items ≤ 500
      bounded xs = omega (arith, length-page (timeline_limit q.limit) xs, timeline_limit-le q.limit)

kept-perm :
    (q : TimelineQuery) (ts : ℕ) (id : String) (m m' : MemoryRepository)
    → Permᴰ (values m.events) (values m'.events)
    → Permᴰ (kept q ts id m) (kept q ts id m')
unfolding kept
kept-perm q ts id m m' same = select-perm _ same

-- The order in which the map is walked does not show: repositories with the same events, in any
-- order, answer every query alike.
pub query_timeline-perm :
    (p : Platform) (q : TimelineQuery) (m m' : MemoryRepository)
    → IsWellFormed m
    → Permᴰ (values m.events) (values m'.events)
    → query_timeline p q m ≡ query_timeline p q m'
unfolding query_timeline sort_stored_events
query_timeline-perm p q m m' w same =
    ap
      (λ sorting.
        decode_cursor p q.cursor >>= λ c. ok (page p (timeline_limit q.limit) (sorting c)))
      (fun_ext λ (ts, id).
        sort_by-perm event_less event_less-IsOrder (kept-perm q ts id m m' same)
          (kept-IsDistinct m w q ts id))
