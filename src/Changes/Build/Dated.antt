-- ===== src/Changes/Build/Dated.antt =====
-- The times and ids of the changes of buildChanges in internal/app/changes.go.
use Prim.Native.String.{◌∷◌ as ◌∷ₛ◌}
use text.Mathlib.TextLemmas.{cons-append}
use mathlib.Core.Path.{subst}
use evidra_gitops.Base.{
  ℕ, ◌≤◌, String, ◌<>◌, ◌≡◌, ◌≢◌, refl, sym, ap, ◌∙◌, false, none, some, List, [], ◌∷◌, arith,
  eq_iff, All, All-map, All-select, All-select_self, length, trim_space, trim_space-ne,
}
use evidra_gitops.Base.Chars.{is_space}
use evidra_gitops.Base.Dict.{lookup, All-values}
use evidra_gitops.Base.Sort.Laws.{All-sort_by, length-sort_by}
use evidra_gitops.Event.{StoredEvent, is_zero_time}
use evidra_gitops.Event.Platform.{Platform}
use evidra_gitops.Store.{event_less, sort_stored_events}
use evidra_gitops.Changes.{Change, ChangeDetail}
use evidra_gitops.Changes.Identity.{derive_change_identity}
use evidra_gitops.Changes.Build.{build_changes_by_id, build_changes, change_less}
use evidra_gitops.Changes.Build.Grouping.{
  gather, finalized-some, own_events, lookup-build_changes_by_id, build_changes_by_id-events,
}
use evidra_gitops.Changes.Build.Distinct.{changes_of-All, build_changes_by_id-NodupKeys}
use evidra_gitops.Changes.Build.Window.{IsInWindow, build_changes_by_id-IsInWindow}

-- A change that is dated and has an id.
abbrev pub IsDated : Change → Type 0
IsDated c = (is_zero_time c.completed_at ≡ false) × (trim_space c.id ≢ "")

identity-ne : (p : Platform) (e : StoredEvent) → trim_space (derive_change_identity p e).id ≢ ""
unfolding derive_change_identity is_space
identity-ne p e = tagged _
  where
    tagged : (x : String) → trim_space (("c" ∷ₛ "hg_") <> x) ≢ ""
    tagged x = rw cons-append (trim_space-ne "c" ("hg_" <> x) refl)

first_gathered :
    (p : Platform) (xs : List StoredEvent) (d : ChangeDetail)
    → gather p xs none ≡ some d
    → (e : StoredEvent) × (ys : List StoredEvent) × (xs ≡ e ∷ ys)
unfolding gather
first_gathered p [] d h = absurd (ground arith)
first_gathered p (e ∷ ys) d h = (e, ys, refl)

abbrev IsTimed : StoredEvent → Type 0
IsTimed e = is_zero_time e.time ≡ false

completed_after :
    (t : ℕ) (xs : List StoredEvent)
    → length xs ≢ 0
    → All IsTimed xs
    → All (λ e. e.time ≤ t) xs
    → is_zero_time t ≡ false
completed_after t [] some_event timed before = absurd (some_event refl)
completed_after t (e ∷ es) some_event timed before = ground (arith, timed.0, before.0)

module _ (p : Platform) (now : ℕ) (es : List StoredEvent) (timed : All IsTimed es) where
  own_event :
      (id : String) (d : ChangeDetail)
      → lookup id (build_changes_by_id p now es) ≡ some d
      → (e : StoredEvent) × (ys : List StoredEvent) × (own_events p now es id ≡ e ∷ ys)
  own_event id d found =
      let (d', made, shape) =
        finalized-some p now es id (gather p (own_events p now es id) none) d
          (sym (lookup-build_changes_by_id p now es id) ∙ found) in
      first_gathered p (own_events p now es id) d' made

  detail-IsDated :
      (id : String) (d : ChangeDetail)
      → lookup id (build_changes_by_id p now es) ≡ some d
      → IsDated d.change
  unfolding sort_stored_events IsInWindow
  detail-IsDated id d found =
      let (sorted, named) = build_changes_by_id-events p now es id d found in
      let (e, ys, shape) = own_event id d found in
      let same =
        (eq_iff (derive_change_identity p e).id id).0
          (subst (All _) shape (All-select_self _ es)).0 in
      (
        completed_after d.change.completed_at d.events
            (not_empty d.events (e ∷ ys) (sorted ∙ ap sort_stored_events shape)
              (λ z. absurd (ground arith)))
            (subst (All IsTimed) (sym sorted)
              (All-sort_by event_less IsTimed _ (All-select IsTimed _ es timed)))
            (All-map _ _ (λ x within. within.1) d.events
              (build_changes_by_id-IsInWindow p now es id d found)),
        λ blank. identity-ne p e (ap trim_space (same ∙ sym named) ∙ blank),
      )
    where
      not_empty :
          (xs ys : List StoredEvent) → xs ≡ sort_stored_events ys → length ys ≢ 0 → length xs ≢ 0
      not_empty xs ys h k z = k (sym (length-sort_by event_less ys) ∙ sym (ap length h) ∙ z)

  -- The changes of dated events are dated, and have ids.
  pub build_changes-IsDated : All IsDated (build_changes p now es)
  unfolding build_changes
  build_changes-IsDated = All-sort_by change_less IsDated _ (
      changes_of-All IsDated _ (
        All-values (λ (d : ChangeDetail). IsDated d.change) (build_changes_by_id p now es)
          (build_changes_by_id-NodupKeys p now es) detail-IsDated))
