-- ===== src/Argo/Normalize/Validity.antt =====
-- What NormalizeSourceEvent of internal/ingest/argo/normalize.go hands on: events that
-- internal/store/store.go takes for valid.
use text.Mathlib.TextLemmas.{append-eq-nil_iff}
use evidra_gitops.Base.{
  String, ◌<>◌, ◌≡◌, ◌≢◌, ap, ◌∙◌, true, false, some, ◌==◌, arith, eq_iff, Bool-cases, inl, inr,
  trim_space, ne-eq,
}
use evidra_gitops.Result.{ok}
use evidra_gitops.Event.{StoredEvent}
use evidra_gitops.Event.Platform.{Platform, EncodesObjects}
use evidra_gitops.Store.{is_valid_event}
use evidra_gitops.Argo.{SourceEvent}
use evidra_gitops.Argo.Normalize.{
  event_type_of, data_fields, is_complete, event_of, normalize_source_event,
}

prefix-ne : ◌≢◌ {A = String} "evt_argocd_" ""
prefix-ne = ground (arith, eq_iff "evt_argocd_" "")

event_id-ne : (id : String) → (("evt_argocd_" <> id) == "") ≡ false
event_id-ne id = ne-eq _ _ (λ h. prefix-ne (append-eq-nil_iff.0 h).0)

event_type-ne : (se : SourceEvent) → (event_type_of se == "") ≡ false
unfolding event_type_of
event_type-ne se = elim (Bool-cases (trim_space se.event_type == "")) [
  | inl blank ↦ rw blank
  | inr written ↦ rw written written
]

is_valid_event-event_of :
    (se : SourceEvent) (default_env payload : String)
    → is_complete se ≡ true
    → payload ≢ ""
    → payload ≢ "null"
    → is_valid_event (event_of se default_env payload) ≡ true
unfolding is_valid_event is_complete event_of
is_valid_event-event_of se default_env payload complete written known = ground (
  arith,
  event_id-ne se.id,
  event_type-ne se,
  ne-eq payload "" written,
  ne-eq payload "null" known,
)

-- What a normalization has gone through that returned an event.
pub normalize_source_event_returns :
    (p : Platform) (se : SourceEvent) (default_env : String) (e : StoredEvent)
    → normalize_source_event p se default_env ≡ ok e
    → (is_complete se ≡ true)
      × (payload : String) × (p.marshal_object (data_fields p se) ≡ some payload)
      × (e ≡ event_of se default_env payload)
unfolding normalize_source_event
normalize_source_event_returns p se default_env e h = ground arith

-- An event that was normalized is valid for the repository.
pub is_valid_event-normalize_source_event :
    (p : Platform) (se : SourceEvent) (default_env : String) (e : StoredEvent)
    → EncodesObjects p
    → normalize_source_event p se default_env ≡ ok e
    → is_valid_event e ≡ true
is_valid_event-normalize_source_event p se default_env e l h =
    let (complete, payload, made, shape) = normalize_source_event_returns p se default_env e h in
    ap is_valid_event shape
    ∙ is_valid_event-event_of se default_env payload complete
        (l.object-ne (data_fields p se) payload made)
        (l.object-ne-null (data_fields p se) payload made)
