-- ===== src/Changes/Build/Window.antt =====
-- The window of a change: finalizeChange of internal/app/changes.go.
use mathlib.Core.Path.{subst}
use mathlib.Core.Option.{some-injective}
use evidra_gitops.Base.{
  ℕ, String, ◌≡◌, ◌≤◌, sym, ◌∙◌, false, none, some, List, [], ◌∷◌, arith, inl, inr, All, All-map,
  last?, Option-cases, ◌≢◌,
}
use evidra_gitops.Base.Dict.{lookup}
use evidra_gitops.Base.Sort.Laws.{IsSorted, sort_by-IsSorted}
use evidra_gitops.Event.{StoredEvent}
use evidra_gitops.Event.Platform.{Platform}
use evidra_gitops.Store.{event_less, sort_stored_events}
use evidra_gitops.Store.Order.{event_less-IsOrder}
use evidra_gitops.Changes.{Change, ChangeDetail}
use evidra_gitops.Changes.Build.{
  finalize_between, finalize_sorted, finalize_change, build_changes_by_id,
}
use evidra_gitops.Changes.Build.Grouping.{
  gather, own_events, finalized-some, lookup-build_changes_by_id,
}

no_earlier : (x y : StoredEvent) → event_less y x ≡ false → x.time ≤ y.time
unfolding event_less
no_earlier x y h = ground arith

from_first :
    (x : StoredEvent) (xs : List StoredEvent)
    → IsSorted event_less (x ∷ xs)
    → All (λ e. x.time ≤ e.time) (x ∷ xs)
from_first x xs (least, sorted) = (omega arith, All-map _ _ (λ y h. no_earlier x y h) xs least)

to_last :
    (xs : List StoredEvent) (last : StoredEvent)
    → IsSorted event_less xs
    → last? xs ≡ some last
    → All (λ e. e.time ≤ last.time) xs
to_last [] last sorted h = tt
to_last (x ∷ []) last sorted h =
    (subst (λ (l : StoredEvent). x.time ≤ l.time) (some-injective _ _ h) (omega arith), tt)
to_last (x ∷ y ∷ ys) last (least, sorted) h =
    let (above, rest) = to_last (y ∷ ys) last sorted h in
    (omega (arith, no_earlier x y least.0, above), (above, rest))

-- The events of a change lie between its start and its completion.
unfoldable pub IsInWindow : ChangeDetail → Type 0
IsInWindow d =
    All (λ (e : StoredEvent). (d.change.started_at ≤ e.time) × (e.time ≤ d.change.completed_at))
      d.events

All-both :
    (P Q : StoredEvent → Type 0) (xs : List StoredEvent)
    → All P xs
    → All Q xs
    → All (λ e. P e × Q e) xs
All-both P Q [] p q = tt
All-both P Q (x ∷ xs) (p, ps) (q, qs) = ((p, q), All-both P Q xs ps qs)

last?-ne : (x : StoredEvent) (xs : List StoredEvent) → last? (x ∷ xs) ≢ none
last?-ne x [] h = absurd (ground (arith, h))
last?-ne x (y ∷ ys) h = last?-ne y ys h

finalize_sorted-IsInWindow :
    (now : ℕ) (c : Change) (xs : List StoredEvent)
    → IsSorted event_less xs
    → IsInWindow (finalize_sorted now c xs)
unfolding finalize_sorted finalize_between IsInWindow
finalize_sorted-IsInWindow now c [] sorted = tt
finalize_sorted-IsInWindow now c (x ∷ xs) sorted = elim (Option-cases (last? (x ∷ xs))) [
  | inl nowhere ↦ absurd (last?-ne x xs nowhere)
  | inr (last, found) ↦
      rw (found, finalize_sorted)
        (All-both _ _ (x ∷ xs) (from_first x xs sorted) (to_last (x ∷ xs) last sorted found))
]

-- A projected change starts no later and is completed no earlier than each of its events.
pub build_changes_by_id-IsInWindow :
    (p : Platform) (now : ℕ) (es : List StoredEvent) (id : String) (d : ChangeDetail)
    → lookup id (build_changes_by_id p now es) ≡ some d
    → IsInWindow d
unfolding finalize_change
build_changes_by_id-IsInWindow p now es id d h =
    let (d', made, shape) =
      finalized-some p now es id (gather p (own_events p now es id) none) d
        (sym (lookup-build_changes_by_id p now es id) ∙ h) in
    subst IsInWindow (sym shape) (
      finalize_sorted-IsInWindow now d'.change (sort_stored_events d'.events)
        (unfold sort_stored_events in sort_by-IsSorted event_less event_less-IsOrder d'.events))
