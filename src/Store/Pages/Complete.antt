-- ===== src/Store/Pages/Complete.antt =====
-- What a client receives that follows the cursors of QueryTimeline of internal/store/store.go.
use mathlib.Core.List.{append_assoc}
use mathlib.Core.Path.{subst}
use evidra_gitops.Base.{
  ℕ, zero, suc, ◌<◌, String, ◌≡◌, refl, sym, ap, ◌∙◌, some, List, [], ◌∷◌, ◌++◌, arith, inl, inr,
  All, take, drop, length, take-append-drop, ltb, Bool-cases,
}
use evidra_gitops.Base.Sort.Paging.{page_split, regroup, fewer_left}
use evidra_gitops.Base.Sort.Suffix.{All-append_right}
use evidra_gitops.Event.{StoredEvent}
use evidra_gitops.Event.Platform.{Platform, IsLawful}
use evidra_gitops.Result.{ok}
use evidra_gitops.Store.{MemoryRepository, sort_stored_events}
use evidra_gitops.Store.Cursor.{encode_cursor, decode_cursor, decode_cursor-encode_cursor}
use evidra_gitops.Store.Query.{TimelineQuery, timeline_limit, kept}
use evidra_gitops.Store.History.{IsWellFormed}
use evidra_gitops.Store.Timeline.{timeline_limit-pos}
use evidra_gitops.Store.Pages.{timeline, join_pages, fetch_all}
use evidra_gitops.Store.Pages.Steps.{
  query_timeline_at, page_short, page_long, encode_cursor-ne, join_more, kept_behind,
  timeline-timed, decode_no_cursor, kept_from_start,
}

module _ (p : Platform) (l : IsLawful p) (q : TimelineQuery) (m : MemoryRepository)
    (w : IsWellFormed m) where
  -- From a cursor that leaves `rest`, the pages that follow are `rest`.
  fetch_rest :
      (rounds : ℕ) (cursor id : String) (ts : ℕ) (front rest : List StoredEvent)
      → length rest < rounds
      → decode_cursor p cursor ≡ ok (ts, id)
      → sort_stored_events (kept q ts id m) ≡ rest
      → timeline q m ≡ front ++ rest
      → fetch_all p rounds (record q { cursor = cursor }) m ≡ some rest
  unfolding fetch_all
  fetch_rest zero cursor id ts front rest enough decoded left shape = absurd (omega arith)
  fetch_rest (suc rounds) cursor id ts front rest enough decoded left shape =
      let n = timeline_limit q.limit in
      let answer = query_timeline_at p q m cursor id ts rest decoded left in
      elim (Bool-cases (ltb n (length rest))) [
        | inr short ↦ rw answer (rw (page_short p n rest short))
        | inl long ↦
            let (f, x, ending, last) = page_split n rest (timeline_limit-pos q.limit) long in
            let whole = regroup front f x n rest (timeline q m) ending shape in
            let timed =
              (All-append_right _ (front ++ f) _ (subst (All _) whole (timeline-timed q m w))).0 in
            let ih =
              fetch_rest rounds (encode_cursor p x.time x.id) x.id x.time ((front ++ f) ++ (x ∷ []))
                (drop n rest) (fewer_left n rounds rest (timeline_limit-pos q.limit) long enough)
                (decode_cursor-encode_cursor p l x.time x.id)
                (kept_behind q m w (front ++ f) x (drop n rest) timed whole)
                (whole ∙ sym (append_assoc (front ++ f) (x ∷ []) (drop n rest))) in
            let next = λ (c : String). fetch_all p rounds (record q { cursor = c }) m in
            ap (λ r. join_pages r next) (answer ∙ ap ok (page_long p n rest x last long))
            ∙ join_more (take n rest) (drop n rest) (encode_cursor p x.time x.id) next
                (encode_cursor-ne p l x.time x.id) ih
            ∙ ap some (take-append-drop n rest)
      ]

  -- A client that starts without a cursor and follows each answer's cursor receives every stored
  -- event that passes the filters, once and in order, whatever the limit of a page, in at most one
  -- round more than there are events.
  pub fetch_all_complete :
      (rounds : ℕ)
      → length (timeline q m) < rounds
      → fetch_all p rounds (record q { cursor = "" }) m ≡ some (timeline q m)
  fetch_all_complete rounds enough =
      fetch_rest rounds "" "" 0 [] (timeline q m) enough (decode_no_cursor p) (kept_from_start q m)
        refl
