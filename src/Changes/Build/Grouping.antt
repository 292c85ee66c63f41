-- ===== src/Changes/Build/Grouping.antt =====
-- buildChangesByID of internal/app/changes.go, change by change: the loop over all events does to one
-- change what a loop over the change's own events does.
use mathlib.Core.List.{append_assoc, append-nil}
use mathlib.Core.Path.{subst}
use mathlib.Core.Option.{some-injective}
use evidra_gitops.Base.{
  ℕ, String, ◌≡◌, refl, sym, ap, ◌∙◌, Option, none, some, List, [], ◌∷◌, ◌++◌, ◌==◌, arith, eq_iff,
  if◌then◌else◌, Bool-cases, inl, inr, select, All, All-map, All-select_self,
}
use evidra_gitops.Base.Dict.{Dict, lookup, lookup-insert}
use evidra_gitops.Event.{StoredEvent}
use evidra_gitops.Event.Platform.{Platform}
use evidra_gitops.Store.{sort_stored_events}
use evidra_gitops.Changes.{Change, ChangeDetail}
use evidra_gitops.Changes.Identity.{derive_change_identity}
use evidra_gitops.Changes.Build.{
  new_change, add_event, or_new, place_event, place_events, finalize_between, finalize_sorted,
  finalize_change, finalize_all, build_changes_by_id,
}

module _ (p : Platform) where
  abbrev pub identity : StoredEvent → String
  identity e = (derive_change_identity p e).id

  -- The loop body on one change, which may not be there yet.
  abbrev pub step_change : StoredEvent → Option ChangeDetail → ChangeDetail
  step_change e o = add_event p e (or_new (derive_change_identity p e) e o)

  -- The loop over the events of one change.
  unfoldable pub gather : List StoredEvent → Option ChangeDetail → Option ChangeDetail
  gather [] o = o
  gather (e ∷ es) o = gather es (some (step_change e o))

  lookup-place_event :
      (id : String) (e : StoredEvent) (out : Dict ChangeDetail)
      → lookup id (place_event p e out)
        ≡ (if identity e == id then some (step_change e (lookup id out)) else lookup id out)
  unfolding place_event
  lookup-place_event id e out = elim (Bool-cases (identity e == id)) [
    | inl same ↦
        rw lookup-insert (
          rw same (ap (λ k. some (step_change e (lookup k out))) ((eq_iff (identity e) id).0 same)))
    | inr other ↦ rw lookup-insert (rw other)
  ]

  -- What the loop leaves under an id is what the events with this identity make, in their order.
  pub lookup-place_events :
      (id : String) (es : List StoredEvent) (out : Dict ChangeDetail)
      → lookup id (place_events p es out)
        ≡ gather (select (λ e. identity e == id) es) (lookup id out)
  unfolding place_events gather select
  lookup-place_events id [] out = refl
  lookup-place_events id (e ∷ es) out = elim (Bool-cases (identity e == id)) [
    | inl same ↦
        lookup-place_events id es (place_event p e out) ∙ rw (lookup-place_event id e out) (rw same)
    | inr other ↦
        lookup-place_events id es (place_event p e out)
        ∙ rw (lookup-place_event id e out) (rw other)
  ]

  events_of : Option ChangeDetail → List StoredEvent
  events_of none = []
  events_of (some d) = d.events

  events-step_change :
      (e : StoredEvent) (o : Option ChangeDetail)
      → (step_change e o).events ≡ events_of o ++ (e ∷ [])
  unfolding add_event or_new events_of new_change
  events-step_change e none = refl
  events-step_change e (some d) = refl

  events-gather :
      (es : List StoredEvent) (o : Option ChangeDetail)
      → events_of (gather es o) ≡ events_of o ++ es
  unfolding gather events_of
  events-gather [] o = sym (append-nil (events_of o))
  events-gather (e ∷ es) o =
      events-gather es (some (step_change e o))
      ∙ ap (λ t. t ++ es) (events-step_change e o)
      ∙ append_assoc (events_of o) (e ∷ []) es

  events_of_gather :
      (es : List StoredEvent) (d : ChangeDetail) → gather es none ≡ some d → d.events ≡ es
  unfolding events_of
  events_of_gather es d h = sym (ap events_of h) ∙ events-gather es none

-- The change is named after its key.
id-step_change :
    (p : Platform) (e : StoredEvent) (o : Option ChangeDetail) (id : String)
    → (derive_change_identity p e).id ≡ id
    → ((d : ChangeDetail) → o ≡ some d → d.change.id ≡ id)
    → (step_change p e o).change.id ≡ id
unfolding add_event or_new new_change
id-step_change p e none id h k = h
id-step_change p e (some d) id h k = k d refl

id-gather :
    (p : Platform) (es : List StoredEvent) (o : Option ChangeDetail) (id : String)
    (d : ChangeDetail)
    → All (λ e. (derive_change_identity p e).id ≡ id) es
    → ((d' : ChangeDetail) → o ≡ some d' → d'.change.id ≡ id)
    → gather p es o ≡ some d
    → d.change.id ≡ id
unfolding gather
id-gather p [] o id d h k made = k d made
id-gather p (e ∷ es) o id d h k made =
    id-gather p es (some (step_change p e o)) id d h.1
      (λ d' same.
        subst (λ (x : ChangeDetail). x.change.id ≡ id) (some-injective _ _ same)
          (id-step_change p e o id h.0 k))
      made

module _ (now : ℕ) where
  pub events-finalize_sorted :
      (c : Change) (xs : List StoredEvent) → (finalize_sorted now c xs).events ≡ xs
  unfolding finalize_sorted finalize_between
  events-finalize_sorted c [] = refl
  events-finalize_sorted c (x ∷ xs) = ground arith

  id-finalize_sorted :
      (c : Change) (xs : List StoredEvent) → (finalize_sorted now c xs).change.id ≡ c.id
  unfolding finalize_sorted finalize_between
  id-finalize_sorted c [] = refl
  id-finalize_sorted c (x ∷ xs) = ground arith

  unfoldable pub finalized : Option ChangeDetail → Option ChangeDetail
  finalized none = none
  finalized (some d) = some (finalize_change now d)

  pub lookup-finalize_all :
      (id : String) (out : Dict ChangeDetail)
      → lookup id (finalize_all now out) ≡ finalized (lookup id out)
  unfolding lookup finalize_all finalized
  lookup-finalize_all id [] = refl
  lookup-finalize_all id ((k, d) ∷ out) = elim (Bool-cases (k == id)) [
    | inl same ↦ rw same
    | inr other ↦ rw other (lookup-finalize_all id out)
  ]

module _ (p : Platform) (now : ℕ) (es : List StoredEvent) (id : String) where
  abbrev pub own_events : List StoredEvent
  own_events = select (λ e. identity p e == id) es

  -- The projection, change by change.
  pub lookup-build_changes_by_id :
      lookup id (build_changes_by_id p now es) ≡ finalized now (gather p own_events none)
  unfolding build_changes_by_id
  lookup-build_changes_by_id =
      lookup-finalize_all now id (place_events p es [])
      ∙ ap (finalized now) (lookup-place_events p id es [] ∙ unfold lookup in refl)

  pub finalized-some :
      (o : Option ChangeDetail) (d : ChangeDetail)
      → finalized now o ≡ some d
      → (d' : ChangeDetail) × (o ≡ some d') × (d ≡ finalize_change now d')
  unfolding finalized
  finalized-some o d h = ground arith

  -- A change holds the events with its identity and no others, sorted, and is named after its key.
  pub build_changes_by_id-events :
      (d : ChangeDetail)
      → lookup id (build_changes_by_id p now es) ≡ some d
      → (d.events ≡ sort_stored_events own_events) × (d.change.id ≡ id)
  unfolding finalize_change
  build_changes_by_id-events d h =
      let (d', made, shape) =
        finalized-some (gather p own_events none) d (sym lookup-build_changes_by_id ∙ h) in
      (
        ap (λ (x : ChangeDetail). x.events) shape
            ∙ events-finalize_sorted now d'.change (sort_stored_events d'.events)
            ∙ ap sort_stored_events (events_of_gather p own_events d' made),
        ap (λ (x : ChangeDetail). x.change.id) shape
            ∙ id-finalize_sorted now d'.change (sort_stored_events d'.events)
            ∙ id-gather p own_events none id d'
                (All-map _ _ (λ e same. (eq_iff (identity p e) id).0 same) own_events
                  (All-select_self _ es))
                (λ d'' impossible. absurd (ground arith)) made,
      )
