-- ===== src/App/Listing/Steps.antt =====
-- One page of ListChanges, and what its cursor leaves: internal/app/changes.go.
use mathlib.Core.Path.{fun_ext, subst}
use evidra_gitops.Base.{
  ℕ, ◌<◌, String, ◌≡◌, ap, ◌∙◌, true, false, Option, some, List, [], ◌∷◌, ◌++◌, ◌==◌, arith, eq_iff,
  inl, inr, select, take, length, last?, if◌then◌else◌, ltb, trim_space, Bool-cases,
}
use evidra_gitops.Base.Int.{ℤ, pos, negsuc}
use evidra_gitops.Base.Sort.Distinct.{IsAscending}
use evidra_gitops.Base.Sort.Suffix.{select_behind}
use evidra_gitops.Event.{is_zero_time}
use evidra_gitops.Event.Platform.{Platform, IsLawful, ReadsMaps}
use evidra_gitops.Result.{ok}
use evidra_gitops.Changes.{Change}
use evidra_gitops.Changes.Build.{change_less}
use evidra_gitops.Changes.Build.Distinct.{change_less-IsOrder}
use evidra_gitops.Changes.Filter.{
  ChangeQuery, encode_change_cursor, decode_change_cursor, after_cursor, apply_change_cursor,
  change_limit, change_page, change_cursor_of,
}
use evidra_gitops.App.Queries.{listed}
use evidra_gitops.App.Listing.{join_lists}

pub change_limit-pos : (n : ℤ) → 0 < change_limit n
unfolding change_limit
change_limit-pos (pos n) = ground arith
change_limit-pos (negsuc n) = omega arith

-- What ListChanges keeps for a cursor that was read.
abbrev pub left : List Change → ℕ → String → List Change
left changes ts id = if is_zero_time ts then changes else apply_change_cursor changes ts id

-- To stand behind the cursor of a change is to come after the change.
after-eq-less : (x c : Change) → after_cursor x.completed_at x.id c ≡ change_less x c
unfolding after_cursor change_less
after-eq-less x c = ground arith

pub left_behind :
    (changes front : List Change) (x : Change) (rest : List Change)
    → IsAscending change_less changes
    → is_zero_time x.completed_at ≡ false
    → changes ≡ front ++ (x ∷ rest)
    → left changes x.completed_at x.id ≡ rest
unfolding apply_change_cursor
left_behind changes front x rest ascending dated shape = rw dated (
    ap (λ less. select less changes) (fun_ext λ c. after-eq-less x c)
    ∙ ap (select (change_less x)) shape
    ∙ select_behind change_less change_less-IsOrder front x rest
        (subst (IsAscending change_less) shape ascending))

pub listed_at :
    (p : Platform) (q : ChangeQuery) (changes : List Change) (cursor id : String) (ts : ℕ)
    (rest : List Change)
    → decode_change_cursor p cursor ≡ ok (ts, id)
    → left changes ts id ≡ rest
    → listed p (record q { cursor = cursor }) changes
      ≡ ok (change_page p (change_limit q.limit) rest)
unfolding listed
listed_at p q changes cursor id ts rest decoded kept = rw (decoded, listed) (rw kept)

module _ (p : Platform) (n : ℕ) (rest : List Change) where
  pub page_short :
      ltb n (length rest) ≡ false → change_page p n rest ≡ record { items = rest; next_cursor = "" }
  unfolding change_page
  page_short short = rw short

  pub page_long :
      (x : Change)
      → last? (take n rest) ≡ some x
      → ltb n (length rest) ≡ true
      → change_page p n rest
        ≡ record { items = take n rest; next_cursor = encode_change_cursor p x.completed_at x.id }
  unfolding change_page change_cursor_of
  page_long x last long = rw (long, last)

-- A cursor is not the empty text.
pub encode_change_cursor-ne :
    (p : Platform)
    → IsLawful p
    → ReadsMaps p
    → (ts : ℕ) (id : String) → (encode_change_cursor p ts id == "") ≡ false
unfolding encode_change_cursor
encode_change_cursor-ne p l reads ts id = elim (Bool-cases (encode_change_cursor p ts id == "")) [
  | inr e ↦ e
  | inl e ↦ absurd (blank ((eq_iff _ "").0 e))
]
  where
    blank : encode_change_cursor p ts id ≡ "" → ⊥
    blank e =
        l.trim_space-raw_base64 (p.string_map_json (("id", id) ∷ ("ts", p.format_nano ts) ∷ []))
          (reads.string_map_json-ne _) (unfold trim_space in ap trim_space e)

pub join_more :
    (items rest : List Change) (cursor : String) (next : String → Option (List Change))
    → (cursor == "") ≡ false
    → next cursor ≡ some rest
    → join_lists (ok (record { items = items; next_cursor = cursor })) next ≡ some (items ++ rest)
unfolding join_lists
join_more items rest cursor next more found = rw more (rw found)
