-- ===== src/App/Listing.antt =====
-- A client that follows the cursors of ListChanges of internal/app/changes.go.
pub mod Steps
pub mod Complete
use evidra_gitops.Base.{ℕ, zero, suc, String, Option, none, some, List, ◌++◌, ◌==◌, if◌then◌else◌}
use evidra_gitops.Event.{StoredEvent}
use evidra_gitops.Event.Platform.{Platform}
use evidra_gitops.Result.{Result, ok, err}
use evidra_gitops.Changes.{Change}
use evidra_gitops.Changes.Build.{build_changes}
use evidra_gitops.Changes.Filter.{ChangeQuery, ChangeListResult, filter_changes}
use evidra_gitops.App.Queries.{listed}

-- The changes that some events give, and that pass the filters of a query.
abbrev pub asked_changes : Platform → ℕ → ChangeQuery → List StoredEvent → List Change
asked_changes p now q events = filter_changes (build_changes p now events) q

unfoldable pub join_lists :
    Result ChangeListResult → (String → Option (List Change)) → Option (List Change)
join_lists (err failure) next = none
join_lists (ok r) next =
    if r.next_cursor == ""
    then some r.items
    else elim (next r.next_cursor) [ none ↦ none | some rest ↦ some (r.items ++ rest) ]

-- Ask, and ask again with the cursor of the answer, until an answer has none. `none` is an error, or
-- that the rounds have run out.
unfoldable pub follow : Platform → ℕ → ChangeQuery → List Change → Option (List Change)
unfolding join_lists
follow p zero q changes = none
follow p (suc rounds) q changes =
    join_lists (listed p q changes) (λ c. follow p rounds (record q { cursor = c }) changes)
