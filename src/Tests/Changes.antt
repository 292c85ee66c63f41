-- ===== src/Tests/Changes.antt =====
-- The projection of internal/app/changes.go at concrete events.
use evidra_gitops.Base.{
  to_lower, trim_space, String, ◌≡◌, refl, ◌∙◌, none, some, List, [], ◌∷◌, ◌==◌, any, select,
  to_lower, trim_space,
}
use evidra_gitops.Base.Dict.{lookup}
use evidra_gitops.Event.{StoredEvent, extension_string, extension_bool}
use evidra_gitops.Store.{sort_stored_events}
use evidra_gitops.Changes.{ChangeDetail}
use evidra_gitops.Changes.Identity.{
  derive_change_identity, first_extension, normalize_primary_provider, subject_id,
  provider_of_source,
}
use evidra_gitops.Changes.Status.{infer_result_status, infer_health_status}
use evidra_gitops.Changes.Build.{
  add_event, or_new, new_change, finalize_change, build_changes_by_id,
}
use evidra_gitops.Changes.Build.Grouping.{
  identity, gather, finalized, own_events, lookup-build_changes_by_id, build_changes_by_id-events,
}
use evidra_gitops.Changes.Build.Verdicts.{overall_result}
use evidra_gitops.Changes.Build.Window.{IsInWindow, build_changes_by_id-IsInWindow}
use evidra_gitops.Changes.Build.Merging.{build_changes_by_id-status}
use evidra_gitops.Tests.Standard.{standard, sample, first, third, marked, tally}

-- Another event of the first event's operation.
abbrev retried : StoredEvent
retried = record first { id = "e4"; payload = "retried" }

abbrev mixed : List StoredEvent
mixed = third ∷ first ∷ retried ∷ []

abbrev key : String
key = identity standard first

abbrev expected : ChangeDetail
expected = finalize_change 20 (
    add_event standard retried
      (add_event standard first (new_change (derive_change_identity standard first) first)))

own_made : finalized 20 (gather standard (own_events standard 20 mixed key) none) ≡ some expected
unfolding finalized gather or_new select derive_change_identity first_extension extension_string
    subject_id normalize_primary_provider extension_bool provider_of_source to_lower trim_space
    sample marked tally
own_made = refl

projected : lookup key (build_changes_by_id standard 20 mixed) ≡ some expected
projected = lookup-build_changes_by_id standard 20 mixed key ∙ own_made

build_changes_by_id-events_example :
    (expected.events ≡ sort_stored_events (own_events standard 20 mixed key))
    × (expected.change.id ≡ key)
build_changes_by_id-events_example =
    build_changes_by_id-events standard 20 mixed key expected projected

build_changes_by_id-status_example :
    (expected.change.result_status
      ≡ overall_result (infer_result_status standard) (own_events standard 20 mixed key))
    × ((expected.change.health_status == "degraded")
        ≡ any (λ e. infer_health_status e == "degraded") (own_events standard 20 mixed key))
build_changes_by_id-status_example =
    build_changes_by_id-status standard 20 mixed key expected projected

build_changes_by_id-IsInWindow_example : IsInWindow expected
build_changes_by_id-IsInWindow_example =
    build_changes_by_id-IsInWindow standard 20 mixed key expected projected
