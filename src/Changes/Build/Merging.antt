-- ===== src/Changes/Build/Merging.antt =====
-- The status of a change is that of all its events, whatever their order: mergeResultStatus and
-- mergeHealthStatus of internal/app/changes.go over the loop of buildChangesByID.
use evidra_gitops.Base.{
  ℕ, String, ◌≡◌, refl, sym, ap, ◌∙◌, Option, none, some, List, [], ◌∷◌, ◌==◌, arith, any,
}
use evidra_gitops.Base.Dict.{lookup}
use evidra_gitops.Store.{sort_stored_events}
use evidra_gitops.Event.{StoredEvent}
use evidra_gitops.Event.Platform.{Platform}
use evidra_gitops.Changes.{Change, ChangeDetail}
use evidra_gitops.Changes.Status.{
  infer_result_status, merge_result_status, infer_health_status, merge_health_status,
}
use evidra_gitops.Changes.Build.{
  new_change, add_event, or_new, finalize_sorted, finalize_between, finalize_change,
  build_changes_by_id,
}
use evidra_gitops.Changes.Build.Grouping.{
  step_change, gather, own_events, finalized-some, lookup-build_changes_by_id,
}
use evidra_gitops.Changes.Build.Verdicts.{
  overall_result, merged, merged_result_from_unknown, merged_health,
}

-- The fields of a change that may not be there yet.
result_of : Option ChangeDetail → String
result_of none = "unknown"
result_of (some d) = d.change.result_status

health_of : Option ChangeDetail → String
health_of none = "unknown"
health_of (some d) = d.change.health_status

module _ (p : Platform) where
  result-step_change :
      (e : StoredEvent) (o : Option ChangeDetail)
      → (step_change p e o).change.result_status
        ≡ merge_result_status (result_of o) (infer_result_status p e)
  unfolding add_event or_new new_change result_of
  result-step_change e none = refl
  result-step_change e (some d) = refl

  health-step_change :
      (e : StoredEvent) (o : Option ChangeDetail)
      → (step_change p e o).change.health_status
        ≡ merge_health_status (health_of o) (infer_health_status e)
  unfolding add_event or_new new_change health_of
  health-step_change e none = refl
  health-step_change e (some d) = refl

  result-gather :
      (es : List StoredEvent) (o : Option ChangeDetail)
      → result_of (gather p es o)
        ≡ merged merge_result_status (infer_result_status p) (result_of o) es
  unfolding gather merged result_of
  result-gather [] o = refl
  result-gather (e ∷ es) o =
      result-gather es (some (step_change p e o))
      ∙ ap (λ s. merged merge_result_status (infer_result_status p) s es) (result-step_change e o)

  health-gather :
      (es : List StoredEvent) (o : Option ChangeDetail)
      → health_of (gather p es o) ≡ merged merge_health_status infer_health_status (health_of o) es
  unfolding gather merged health_of
  health-gather [] o = refl
  health-gather (e ∷ es) o =
      health-gather es (some (step_change p e o))
      ∙ ap (λ s. merged merge_health_status infer_health_status s es) (health-step_change e o)

  result_of_gather :
      (es : List StoredEvent) (d : ChangeDetail)
      → gather p es none ≡ some d
      → d.change.result_status ≡ overall_result (infer_result_status p) es
  unfolding result_of
  result_of_gather es d made =
      sym (ap result_of made)
      ∙ result-gather es none
      ∙ merged_result_from_unknown (infer_result_status p) es

  health_of_gather :
      (es : List StoredEvent) (d : ChangeDetail)
      → gather p es none ≡ some d
      → d.change.health_status ≡ merged merge_health_status infer_health_status "unknown" es
  unfolding health_of
  health_of_gather es d made = sym (ap health_of made) ∙ health-gather es none

module _ (now : ℕ) (c : Change) (xs : List StoredEvent) where
  result-finalize_sorted : (finalize_sorted now c xs).change.result_status ≡ c.result_status
  unfolding finalize_sorted finalize_between
  result-finalize_sorted = ground arith

  health-finalize_sorted : (finalize_sorted now c xs).change.health_status ≡ c.health_status
  unfolding finalize_sorted finalize_between
  health-finalize_sorted = ground arith

-- The status of a projected change: failed if the result of some event is, else succeeded if one is,
-- else unknown; and its health is degraded exactly if that of some event is.
pub build_changes_by_id-status :
    (p : Platform) (now : ℕ) (es : List StoredEvent) (id : String) (d : ChangeDetail)
    → lookup id (build_changes_by_id p now es) ≡ some d
    → (d.change.result_status ≡ overall_result (infer_result_status p) (own_events p now es id))
      × ((d.change.health_status == "degraded")
          ≡ any (λ e. infer_health_status e == "degraded") (own_events p now es id))
unfolding finalize_change
build_changes_by_id-status p now es id d h =
    let own = own_events p now es id in
    let (d', made, shape) =
      finalized-some p now es id (gather p own none) d
        (sym (lookup-build_changes_by_id p now es id) ∙ h) in
    (
      ap (λ (x : ChangeDetail). x.change.result_status) shape
          ∙ result-finalize_sorted now d'.change (sort_stored_events d'.events)
          ∙ result_of_gather p own d' made,
      ap (λ (x : ChangeDetail). x.change.health_status == "degraded") shape
          ∙ ap (λ s. s == "degraded")
              (health-finalize_sorted now d'.change (sort_stored_events d'.events)
                ∙ health_of_gather p own d' made)
          ∙ merged_health infer_health_status "unknown" own,
    )
