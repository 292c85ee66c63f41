-- ===== src/Store/Pages/Steps.antt =====
-- One page of QueryTimeline, and what its cursor leaves: internal/store/store.go.
use mathlib.Core.Path.{subst, fun_ext}
use evidra_gitops.Base.{
  ℕ, String, ◌≡◌, ◌≢◌, refl, sym, ap, ◌∙◌, Bool, true, false, ◌&&◌, Option, some, List, [], ◌∷◌,
  ◌++◌, ◌==◌, arith, eq_iff, inl, inr, select, All, All-select, take, length, last?, ltb,
  trim_space, Bool-cases,
}
use evidra_gitops.Base.Dict.{values, All-values}
use evidra_gitops.Base.Sort.{sort_by}
use evidra_gitops.Base.Sort.Laws.{select-sort_by, All-sort_by}
use evidra_gitops.Base.Sort.Distinct.{IsAscending, sort_by-IsAscending, select-IsDistinct}
use evidra_gitops.Base.Sort.Suffix.{select_behind}
use evidra_gitops.Event.{StoredEvent}
use evidra_gitops.Event.Platform.{Platform, IsLawful}
use evidra_gitops.Result.{ok, ◌>>=◌}
use evidra_gitops.Store.{MemoryRepository, is_valid_event, event_less, sort_stored_events}
use evidra_gitops.Store.Cursor.{encode_cursor, decode_cursor}
use evidra_gitops.Store.Query.{
  TimelineQuery, timeline_limit, filtered_out, matches, behind_cursor, kept, page, query_timeline,
}
use evidra_gitops.Store.History.{IsWellFormed}
use evidra_gitops.Store.Order.{event_less-IsOrder, events-IsDistinct}
use evidra_gitops.Store.Pages.{timeline, join_pages}

-- To stand behind the cursor of an event is to come after the event.
behind-eq-less : (x e : StoredEvent) → x.time ≢ 0 → behind_cursor x.time x.id e ≡ event_less x e
unfolding behind_cursor event_less
behind-eq-less x e h = ground arith

select_twice :
    (p r : StoredEvent → Bool) (xs : List StoredEvent)
    → select (λ e. p e && r e) xs ≡ select r (select p xs)
unfolding select
select_twice p r [] = refl
select_twice p r (x ∷ xs) = ground (arith, select_twice p r xs)

valid_timed : (e : StoredEvent) → is_valid_event e ≡ true → e.time ≢ 0
unfolding is_valid_event
valid_timed e h = ground arith

-- The cursor is no filter.
kept_cursor :
    (q : TimelineQuery) (cursor : String) (ts : ℕ) (id : String) (m : MemoryRepository)
    → kept (record q { cursor = cursor }) ts id m ≡ kept q ts id m
unfolding kept matches filtered_out
kept_cursor q cursor ts id m = refl

pub query_timeline_at :
    (p : Platform) (q : TimelineQuery) (m : MemoryRepository) (cursor id : String) (ts : ℕ)
    (rest : List StoredEvent)
    → decode_cursor p cursor ≡ ok (ts, id)
    → sort_stored_events (kept q ts id m) ≡ rest
    → query_timeline p (record q { cursor = cursor }) m ≡ ok (page p (timeline_limit q.limit) rest)
unfolding query_timeline
query_timeline_at p q m cursor id ts rest decoded left =
    rw (decoded, ◌>>=◌) (rw (kept_cursor q cursor ts id m) (rw left))

module _ (p : Platform) (n : ℕ) (rest : List StoredEvent) where
  pub page_short :
      ltb n (length rest) ≡ false → page p n rest ≡ record { items = rest; next_cursor = "" }
  unfolding page
  page_short short = rw short

  pub page_long :
      (x : StoredEvent)
      → last? (take n rest) ≡ some x
      → ltb n (length rest) ≡ true
      → page p n rest ≡ record { items = take n rest; next_cursor = encode_cursor p x.time x.id }
  unfolding page
  page_long x last long = rw (long, last)

-- A cursor is not the empty text.
pub encode_cursor-ne :
    (p : Platform) → IsLawful p → (ts : ℕ) (id : String) → (encode_cursor p ts id == "") ≡ false
unfolding encode_cursor
encode_cursor-ne p l ts id = elim (Bool-cases (encode_cursor p ts id == "")) [
  | inr e ↦ e
  | inl e ↦ absurd (blank ((eq_iff _ "").0 e))
]
  where
    blank : encode_cursor p ts id ≡ "" → ⊥
    blank e =
        l.trim_space-base64 _ (l.cursor_json-ne (p.format_nano ts) id)
          (unfold trim_space in ap trim_space e)

pub join_more :
    (items rest : List StoredEvent) (cursor : String) (next : String → Option (List StoredEvent))
    → (cursor == "") ≡ false
    → next cursor ≡ some rest
    → join_pages (ok (record { items = items; next_cursor = cursor })) next ≡ some (items ++ rest)
unfolding join_pages
join_more items rest cursor next more found = rw more (rw found)

module _ (q : TimelineQuery) (m : MemoryRepository) (w : IsWellFormed m) where
  timeline-IsAscending : IsAscending event_less (timeline q m)
  unfolding timeline sort_stored_events
  timeline-IsAscending =
      sort_by-IsAscending event_less event_less-IsOrder _
        (select-IsDistinct event_less (matches q) _ (events-IsDistinct m w))

  -- With the cursor of an event of the timeline, what is left is what stands behind the event.
  pub kept_behind :
      (front : List StoredEvent) (x : StoredEvent) (rest : List StoredEvent)
      → x.time ≢ 0
      → timeline q m ≡ front ++ (x ∷ rest)
      → sort_stored_events (kept q x.time x.id m) ≡ rest
  unfolding timeline sort_stored_events kept
  kept_behind front x rest h shape =
      ap (sort_by event_less)
        (select_twice (matches q) (behind_cursor x.time x.id) (values m.events))
      ∙ ap (λ r. sort_by event_less (select r (select (matches q) (values m.events))))
          (fun_ext λ e. behind-eq-less x e h)
      ∙ sym (
          select-sort_by event_less event_less-IsOrder (event_less x)
            (select (matches q) (values m.events)))
      ∙ ap (select (event_less x)) shape
      ∙ select_behind event_less event_less-IsOrder front x rest
          (subst (IsAscending event_less) shape timeline-IsAscending)

  -- Every event of a repository has a time.
  pub timeline-timed : All (λ e. e.time ≢ 0) (timeline q m)
  unfolding timeline sort_stored_events
  timeline-timed = All-sort_by event_less _ _ (
      All-select _ (matches q) _
        (All-values _ m.events w.once (λ id e found. valid_timed e (w.valid id e found))))

pub decode_no_cursor : (p : Platform) → decode_cursor p "" ≡ ok (0, "")
unfolding decode_cursor trim_space
decode_no_cursor p = refl

select_and_true :
    (p : StoredEvent → Bool) (xs : List StoredEvent) → select (λ e. p e && true) xs ≡ select p xs
unfolding select
select_and_true p [] = refl
select_and_true p (x ∷ xs) = ground (arith, select_and_true p xs)

pub kept_from_start :
    (q : TimelineQuery) (m : MemoryRepository) → sort_stored_events (kept q 0 "" m) ≡ timeline q m
unfolding timeline kept behind_cursor
kept_from_start q m = ap sort_stored_events (select_and_true (matches q) (values m.events))
