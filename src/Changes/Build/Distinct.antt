-- ===== src/Changes/Build/Distinct.antt =====
-- The changes of buildChanges in internal/app/changes.go are told apart by their ids.
use evidra_gitops.Base.{
  ℕ, ◌≡◌, ap, ◌∙◌, Bool, true, false, List, [], ◌∷◌, ◌==◌, arith, eq_iff, Bool-cases, inl, inr,
  str_ltb, All,
}
use evidra_gitops.Base.Order.{
  str_ltb_irrefl, str_ltb_asymm, str_ltb_trans, str_ltb_weak, str_ltb_total,
}
use evidra_gitops.Base.Dict.{Dict, NodupKeys, insert-NodupKeys}
use evidra_gitops.Base.Keyed.{IsKeyed, values-IsDistinct}
use evidra_gitops.Base.Sort.Laws.{IsOrder}
use evidra_gitops.Base.Sort.Distinct.{differ, IsDistinct, IsAscending, sort_by-IsAscending}
use evidra_gitops.Event.{StoredEvent}
use evidra_gitops.Event.Platform.{Platform}
use evidra_gitops.Changes.{Change, ChangeDetail}
use evidra_gitops.Changes.Build.{
  place_event, place_events, finalize_all, build_changes_by_id, change_less, changes_of,
  build_changes,
}
use evidra_gitops.Changes.Build.Grouping.{
  finalized, lookup-finalize_all, build_changes_by_id-events,
}

pub change_less-IsOrder : IsOrder change_less
unfolding change_less
change_less-IsOrder = record {
  irrefl = λ a. ground (arith, str_ltb_irrefl a.id);
  asymm = λ a b h. ground (arith, str_ltb_asymm a.id b.id);
  trans = λ a b c h k. ground (arith, str_ltb_trans a.id b.id c.id);
  weak = λ a b c h k. ground (arith, str_ltb_weak a.id b.id c.id);
}

abbrev detail_less : ChangeDetail → ChangeDetail → Bool
detail_less a b = change_less a.change b.change

detail_differ :
    (a b : ChangeDetail) → (a.change.id == b.change.id) ≡ false → differ detail_less a b ≡ true
unfolding change_less
detail_differ a b h = elim (Bool-cases (str_ltb a.change.id b.change.id)) [
  | inl first ↦ ground arith
  | inr e ↦ elim (str_ltb_total a.change.id b.change.id e) [
    | inl same ↦ absurd (ground (arith, eq_iff a.change.id b.change.id))
    | inr second ↦ ground arith
  ]
]

place_events-NodupKeys :
    (p : Platform) (es : List StoredEvent) (out : Dict ChangeDetail)
    → NodupKeys out
    → NodupKeys (place_events p es out)
unfolding place_events place_event
place_events-NodupKeys p [] out u = u
place_events-NodupKeys p (e ∷ es) out u = place_events-NodupKeys p es _ (insert-NodupKeys _ _ out u)

finalize_all-NodupKeys :
    (now : ℕ) (out : Dict ChangeDetail) → NodupKeys out → NodupKeys (finalize_all now out)
unfolding finalize_all finalized
finalize_all-NodupKeys now [] u = tt
finalize_all-NodupKeys now ((k, d) ∷ out) (fresh, u) =
    (lookup-finalize_all now k out ∙ ap (finalized now) fresh, finalize_all-NodupKeys now out u)

pub changes_of-All {κ} :
    (P : Change → Type κ) (ds : List ChangeDetail)
    → All (λ (d : ChangeDetail). P d.change) ds
    → All P (changes_of ds)
unfolding changes_of
changes_of-All P [] h = tt
changes_of-All P (d ∷ ds) h = (h.0, changes_of-All P ds h.1)

changes_of-IsDistinct :
    (ds : List ChangeDetail) → IsDistinct detail_less ds → IsDistinct change_less (changes_of ds)
unfolding changes_of
changes_of-IsDistinct [] h = tt
changes_of-IsDistinct (d ∷ ds) h = (changes_of-All _ ds h.0, changes_of-IsDistinct ds h.1)

module _ (p : Platform) (now : ℕ) (es : List StoredEvent) where
  pub build_changes_by_id-NodupKeys : NodupKeys (build_changes_by_id p now es)
  unfolding build_changes_by_id
  build_changes_by_id-NodupKeys =
      finalize_all-NodupKeys now (place_events p es []) (place_events-NodupKeys p es [] tt)

  build_changes_by_id-IsKeyed :
      IsKeyed (λ (d : ChangeDetail). d.change.id) (build_changes_by_id p now es)
  unfolding IsKeyed
  build_changes_by_id-IsKeyed id d found = (build_changes_by_id-events p now es id d found).1

  -- The changes stand in strictly ascending order.
  pub build_changes-IsAscending : IsAscending change_less (build_changes p now es)
  unfolding build_changes
  build_changes-IsAscending = sort_by-IsAscending change_less change_less-IsOrder _ (
      changes_of-IsDistinct _ (
        values-IsDistinct (λ (d : ChangeDetail). d.change.id) detail_less detail_differ _
          build_changes_by_id-NodupKeys build_changes_by_id-IsKeyed))
