-- ===== src/Providers/Kubernetes/Collector/Collapsed.antt =====
-- toCollapsedSupporting of internal/providers/kubernetes/collector.go: lifecycle events of one object and
-- reason in a window of five minutes have one id, so the memory repository of internal/store/store.go
-- keeps one of them.
use mathlib.Core.Path.{subst}
use evidra_gitops.Base.{
  ℕ, ◌+◌, ◌-◌, ◌%◌, ◌/◌, ◌≤◌, ◌<◌, String, ◌≡◌, refl, sym, ap, ◌∙◌, true, false, Option, some, none,
  arith, inl, inr, Bool-cases, Option-cases, to_lower, trim_space, equal_fold,
}
use evidra_gitops.Base.Dict.{lookup}
use evidra_gitops.Event.{StoredEvent}
use evidra_gitops.Event.Platform.{Platform}
use evidra_gitops.Store.{MemoryRepository, ingest_event, is_valid_event, hashed}
use evidra_gitops.Store.Ingest.{hashed-id, ingest_event-hashed}
use evidra_gitops.App.Memory.{memory_repository}
use evidra_gitops.Api.Events.Stored.{IsStored, known_unchanged}
use evidra_gitops.Providers.Kubernetes.{
  KubernetesEvent, infer_app, reason_of, event_timestamp, normalize_event, kubernetes_extensions,
}
use evidra_gitops.Providers.Kubernetes.Collector.{
  Printing, Settings, Readings, collapse_window, window_of, collapsed_id, event_reason,
  should_collapse_lifecycle, to_collapsed_supporting, observed_event, observe,
}
use evidra_gitops.Providers.Kubernetes.Collector.Stored.{normal}

-- Times with one quotient have one window.
window_of_shared : (s t : ℕ) → s / collapse_window ≡ t / collapse_window → window_of s ≡ window_of t
unfolding window_of
window_of_shared s t same = omega arith

-- An event whose id is taken changes nothing, whatever the answer is.
ingest_event_taken :
    (p : Platform) (now : ℕ) (e : StoredEvent) (m : MemoryRepository)
    → IsStored m e.id
    → (ingest_event p now e m).1 ≡ m
unfolding IsStored
ingest_event_taken p now e m (old, found) = elim (Bool-cases (is_valid_event e)) [
  | inr invalid ↦ unfold ingest_event in ground arith
  | inl valid ↦ elim (Option-cases (hashed p e)) [
    | inl none_made ↦ unfold ingest_event in ground arith
    | inr (h, made) ↦
        ap (λ (r : _ × MemoryRepository). r.1) (ingest_event-hashed p now e h m valid made)
        ∙ known_unchanged now h old m (ap (λ k. lookup k m.events) (hashed-id p e h made) ∙ found)
  ]
]

-- Events of the cluster that are about one object, for one reason, in one window.
pub record AreAlike (now later : ℕ) (e f : KubernetesEvent) : Type 0 where
  pub objects : to_lower (infer_app e) ≡ to_lower (infer_app f)
  pub reasons : reason_of e ≡ reason_of f
  pub windows : event_timestamp now e / collapse_window ≡ event_timestamp later f / collapse_window

module _ (p : Platform) (print : Printing) (settings : Settings) where
  event_reason_shared :
      (at later : Readings) (e f : KubernetesEvent)
      → reason_of e ≡ reason_of f
      → event_reason print (normal p settings at e) ≡ event_reason print (normal p settings later f)
  unfolding event_reason normalize_event kubernetes_extensions lookup evidra_gitops.Base.Dict.insert
  event_reason_shared at later e f same = rw same refl

  collapsed_id_shared :
      (at later : Readings) (e f : KubernetesEvent)
      → AreAlike at.for_time later.for_time e f
      → collapsed_id print (normal p settings at e) ≡ collapsed_id print (normal p settings later f)
  unfolding collapsed_id normalize_event
  collapsed_id_shared at later e f alike = rw alike.objects (
      rw (event_reason_shared at later e f alike.reasons)
        (rw (window_of_shared _ _ alike.windows) refl))

  observed_collapsed :
      (at : Readings) (e : KubernetesEvent) (m : MemoryRepository)
      → should_collapse_lifecycle print (memory_repository p) (normal p settings at e) m ≡ true
      → observed_event p print settings (memory_repository p) at e m
        ≡ to_collapsed_supporting p print (normal p settings at e)
  unfolding observed_event
  observed_collapsed at e m noise = rw (noise, observed_event) refl

  -- Of the lifecycle events about one object, for one reason and in one window of five minutes, one is
  -- kept: where one of them is stored under its collapsed id, another that is to be collapsed leaves the
  -- memory repository as it is.
  pub observe_once :
      (at later : Readings) (e f : KubernetesEvent) (m : MemoryRepository)
      → AreAlike at.for_time later.for_time e f
      → IsStored m (collapsed_id print (normal p settings at e))
      → should_collapse_lifecycle print (memory_repository p) (normal p settings later f) m ≡ true
      → observe p print settings (memory_repository p) later f m ≡ m
  unfolding observe memory_repository to_collapsed_supporting
  observe_once at later e f m alike held noise =
      ap (λ (new : StoredEvent). (ingest_event p later.for_ingest new m).1)
        (observed_collapsed later f m noise)
      ∙ ingest_event_taken p later.for_ingest _ m
          (subst (IsStored m) (collapsed_id_shared at later e f alike) held)
