-- ===== src/App/Listing/Complete.antt =====
-- What a client receives that follows the cursors of ListChanges of internal/app/changes.go.
use mathlib.Core.List.{append_assoc}
use mathlib.Core.Path.{subst}
use evidra_gitops.Base.{
  ℕ, zero, suc, ◌<◌, String, ◌≡◌, refl, sym, ap, ◌∙◌, false, some, List, [], ◌∷◌, ◌++◌, arith, inl,
  inr, All, All-select, take, drop, length, take-append-drop, ltb, trim_space, Bool-cases,
}
use evidra_gitops.Base.Sort.Paging.{page_split, regroup, fewer_left}
use evidra_gitops.Base.Sort.Distinct.{IsAscending, select-IsAscending}
use evidra_gitops.Base.Sort.Suffix.{All-append_right}
use evidra_gitops.Event.{StoredEvent, is_zero_time}
use evidra_gitops.Event.Platform.{Platform, IsLawful, ReadsMaps}
use evidra_gitops.Result.{ok}
use evidra_gitops.Changes.{Change}
use evidra_gitops.Changes.Build.{change_less}
use evidra_gitops.Changes.Build.Distinct.{build_changes-IsAscending}
use evidra_gitops.Changes.Build.Dated.{IsDated, build_changes-IsDated}
use evidra_gitops.Changes.Filter.{
  ChangeQuery, filter_changes, encode_change_cursor, decode_change_cursor, change_limit,
}
use evidra_gitops.Changes.Filter.Cursor.{decode_change_cursor-encode_change_cursor}
use evidra_gitops.App.Listing.{asked_changes, join_lists, follow}
use evidra_gitops.App.Listing.Steps.{
  change_limit-pos, left, left_behind, listed_at, page_short, page_long, encode_change_cursor-ne,
  join_more,
}

module _ (p : Platform) (l : IsLawful p) (reads : ReadsMaps p) (q : ChangeQuery)
    (changes : List Change) (ascending : IsAscending change_less changes)
    (cursorable : All IsDated changes) where
  -- From a cursor that leaves `rest`, the pages that follow are `rest`.
  follow_rest :
      (rounds : ℕ) (cursor id : String) (ts : ℕ) (front rest : List Change)
      → length rest < rounds
      → decode_change_cursor p cursor ≡ ok (ts, id)
      → left changes ts id ≡ rest
      → changes ≡ front ++ rest
      → follow p rounds (record q { cursor = cursor }) changes ≡ some rest
  unfolding follow
  follow_rest zero cursor id ts front rest enough decoded kept shape = absurd (omega arith)
  follow_rest (suc rounds) cursor id ts front rest enough decoded kept shape =
      let n = change_limit q.limit in
      let answer = listed_at p q changes cursor id ts rest decoded kept in
      elim (Bool-cases (ltb n (length rest))) [
        | inr short ↦ rw answer (rw (page_short p n rest short))
        | inl long ↦
            let (f, x, ending, last) = page_split n rest (change_limit-pos q.limit) long in
            let whole = regroup front f x n rest changes ending shape in
            let (dated, named) =
              (All-append_right _ (front ++ f) _ (subst (All IsDated) whole cursorable)).0 in
            let ih =
              follow_rest rounds (encode_change_cursor p x.completed_at x.id) x.id x.completed_at
                ((front ++ f) ++ (x ∷ [])) (drop n rest)
                (fewer_left n rounds rest (change_limit-pos q.limit) long enough)
                (decode_change_cursor-encode_change_cursor p l reads x.completed_at x.id named)
                (left_behind changes (front ++ f) x (drop n rest) ascending dated whole)
                (whole ∙ sym (append_assoc (front ++ f) (x ∷ []) (drop n rest))) in
            let next = λ (c : String). follow p rounds (record q { cursor = c }) changes in
            ap (λ r. join_lists r next) (answer ∙ ap ok (page_long p n rest x last long))
            ∙ join_more (take n rest) (drop n rest) (encode_change_cursor p x.completed_at x.id)
                next (encode_change_cursor-ne p l reads x.completed_at x.id) ih
            ∙ ap some (take-append-drop n rest)
      ]

  follow_all :
      (rounds : ℕ)
      → length changes < rounds
      → follow p rounds (record q { cursor = "" }) changes ≡ some changes
  unfolding decode_change_cursor trim_space
  follow_all rounds enough = follow_rest rounds "" "" 0 [] changes enough refl refl refl

-- A client that starts without a cursor and follows each answer's cursor receives every change of the
-- events that passes the filters, once and in order, whatever the limit of a page, in at most one
-- round more than there are changes. The events have times, and its answers are of one moment.
pub follow_complete :
    (p : Platform) (now : ℕ) (q : ChangeQuery) (events : List StoredEvent) (rounds : ℕ)
    → IsLawful p
    → ReadsMaps p
    → All (λ (e : StoredEvent). is_zero_time e.time ≡ false) events
    → length (asked_changes p now q events) < rounds
    → follow p rounds (record q { cursor = "" }) (asked_changes p now q events)
      ≡ some (asked_changes p now q events)
unfolding filter_changes
follow_complete p now q events rounds l reads timed enough =
    follow_all p l reads q (asked_changes p now q events)
      (select-IsAscending change_less _ _ (build_changes-IsAscending p now events))
      (All-select IsDated _ _ (build_changes-IsDated p now events timed)) rounds enough
