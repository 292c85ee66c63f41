-- ===== src/Providers/Kubernetes/Collector/Stored.antt =====
-- The events that the Kubernetes collector of internal/providers/kubernetes/collector.go lists, in the
-- memory repository of internal/store/store.go.
use mathlib.Core.Path.{subst}
use evidra_gitops.Base.{
  ℕ, ◌+◌, String, ◌≡◌, ◌⊎◌, refl, sym, ap, ◌∙◌, true, false, some, List, [], ◌∷◌, arith, inl, inr,
  Bool-cases, eqb, ne-eq,
}
use evidra_gitops.Result.{ok, err, conflict}
use evidra_gitops.Store.Held.{IsHeld, ingest_event_outcome, ingest_event-keeps_IsHeld}
use evidra_gitops.Event.{StoredEvent}
use evidra_gitops.Event.Platform.{Platform, EncodesObjects, EncodesAll, EncodesCanonical}
use evidra_gitops.Event.Hash.{canonical}
use evidra_gitops.Store.{MemoryRepository, ingest_event, is_valid_event}
use evidra_gitops.App.Memory.{memory_repository}
use evidra_gitops.Argo.Normalize.{text_or_empty}
use evidra_gitops.Providers.Kubernetes.{KubernetesEvent, kubernetes_data, normalize_event}
use evidra_gitops.Providers.Kubernetes.Collector.Taking.{
  id_of-ne, collapsed_id-ne, kubernetes_type-ne, event_timestamp-ne, hashed_anew,
}
use evidra_gitops.Providers.Kubernetes.Collector.{
  Printing, Settings, Collector, EventClient, Polling, Readings, to_collapsed_supporting,
  should_collapse_lifecycle, observed_event, observe, observe_all, after_list, poll_events,
}

-- What the theorems need of the libraries.
pub record IsEncoding (p : Platform) : Type 0 where
  pub objects : EncodesObjects p
  pub all : EncodesAll p
  pub canonicals : EncodesCanonical p

-- The event of a listed one, before it is collapsed.
abbrev pub normal : Platform → Settings → Readings → KubernetesEvent → StoredEvent
normal p settings at e =
    normalize_event p settings.cluster settings.environment at.for_id at.for_time e

-- The event that is ingested for a listed one, collapsed or not.
abbrev pub observed_in :
    Platform → Printing → Settings → Readings → KubernetesEvent → MemoryRepository → StoredEvent
observed_in p print settings at e before =
    observed_event p print settings (memory_repository p) at e before

-- An event that is ingested into one repository is held by a later one, with its hash, or its ingest was
-- refused for a conflict.
unfoldable pub IsSettled : Platform → ℕ → StoredEvent → MemoryRepository → MemoryRepository → Type 0
IsSettled p now new before m = ((ingest_event p now new before).0 ≡ err conflict) ⊎ IsHeld p m new

-- Each event of a list is settled in the end, as the loop of poll comes to it.
unfoldable pub AllSettled :
    Platform
    → Printing
    → Settings
    → (ℕ → Readings)
    → ℕ
    → List KubernetesEvent
    → MemoryRepository
    → MemoryRepository
    → Type 0
AllSettled p print settings clock n [] before m = Unit
AllSettled p print settings clock n (e ∷ es) before m =
    IsSettled p (clock n).for_ingest (observed_in p print settings (clock n) e before) before m
    × AllSettled p print settings clock (n + 1) es
        (observe p print settings (memory_repository p) (clock n) e before) m

module _ (p : Platform) (print : Printing) (encoding : IsEncoding p) (settings : Settings) where
  -- The data of the event of a listed one.
  normal_encoded :
      (at : Readings) (e : KubernetesEvent)
      → p.marshal_object (kubernetes_data e) ≡ some (normal p settings at e).payload
  unfolding normalize_event text_or_empty
  normal_encoded at e =
      let (s, made) = encoding.all.encoded (kubernetes_data e) in
      made ∙ ap (λ o. some (text_or_empty o)) (sym made)

  -- A valid event of these data is settled.
  settles :
      (now : ℕ) (at : Readings) (e : KubernetesEvent) (new : StoredEvent) (m : MemoryRepository)
      → new.payload ≡ (normal p settings at e).payload
      → new.integrity_hash ≡ ""
      → is_valid_event new ≡ true
      → IsSettled p now new m (ingest_event p now new m).1
  unfolding canonical IsSettled
  settles now at e new m same unhashed valid =
      let (s, made) =
        encoding.canonicals.canonical_encoded (canonical p new) (kubernetes_data e)
          (normal_encoded at e ∙ ap some (sym same)) in
      ingest_event_outcome p now new m _ valid (hashed_anew p new s unhashed made)

  normal-valid :
      (at : Readings) (e : KubernetesEvent)
      → eqb at.for_time 0 ≡ false
      → is_valid_event (normal p settings at e) ≡ true
  unfolding normalize_event is_valid_event
  normal-valid at e dated = ground (
    arith,
    id_of-ne p at.for_id e,
    kubernetes_type-ne e,
    event_timestamp-ne at.for_time e dated,
    ne-eq _ "" (encoding.objects.object-ne (kubernetes_data e) _ (normal_encoded at e)),
    ne-eq _ "null" (encoding.objects.object-ne-null (kubernetes_data e) _ (normal_encoded at e)),
  )

  collapsed-valid :
      (e : StoredEvent)
      → is_valid_event e ≡ true
      → is_valid_event (to_collapsed_supporting p print e) ≡ true
  unfolding is_valid_event to_collapsed_supporting
  collapsed-valid e valid = ground (arith, collapsed_id-ne print e)

  observe_cases :
      (at : Readings) (e : KubernetesEvent) (m : MemoryRepository)
      → (observed_event p print settings (memory_repository p) at e m ≡ normal p settings at e)
        ⊎ (observed_event p print settings (memory_repository p) at e m
            ≡ to_collapsed_supporting p print (normal p settings at e))
  unfolding observed_event
  observe_cases at e m =
      elim (Bool-cases
        (should_collapse_lifecycle print (memory_repository p) (normal p settings at e) m)) [
          | inr apart ↦ inl (rw (apart, observed_event) refl)
          | inl noise ↦ inr (rw (noise, observed_event) refl)
        ]

  observe-IsSettled :
      (at : Readings) (e : KubernetesEvent) (m : MemoryRepository)
      → eqb at.for_time 0 ≡ false
      → IsSettled p at.for_ingest
          (observed_in p print settings at e m)
          m
          (observe p print settings (memory_repository p) at e m)
  unfolding observe memory_repository normalize_event to_collapsed_supporting
  observe-IsSettled at e m dated =
      let valid = normal-valid at e dated in
      elim (observe_cases at e m) [
        | inl apart ↦
            subst (λ new. IsSettled p at.for_ingest new m (ingest_event p at.for_ingest new m).1)
              (sym apart) (settles at.for_ingest at e (normal p settings at e) m refl refl valid)
        | inr collapsed ↦
            subst (λ new. IsSettled p at.for_ingest new m (ingest_event p at.for_ingest new m).1)
              (sym collapsed)
              (settles at.for_ingest at e (to_collapsed_supporting p print (normal p settings at e))
                m refl refl (collapsed-valid _ valid))
      ]

  stays-IsSettled :
      (clock : ℕ → Readings) (n : ℕ) (es : List KubernetesEvent) (now : ℕ) (new : StoredEvent)
      (before m : MemoryRepository)
      → IsSettled p now new before m
      → IsSettled p now new before (observe_all p print settings (memory_repository p) clock n es m)
  unfolding observe_all observe memory_repository IsSettled
  stays-IsSettled clock n [] now new before m settled = settled
  stays-IsSettled clock n (f ∷ fs) now new before m (inl refused) = inl refused
  stays-IsSettled clock n (f ∷ fs) now new before m (inr held) =
      stays-IsSettled clock (n + 1) fs now new before _
        (inr (ingest_event-keeps_IsHeld p (clock n).for_ingest _ m new held))

  observe_all-AllSettled :
      (clock : ℕ → Readings) (n : ℕ) (es : List KubernetesEvent) (m : MemoryRepository)
      → ((k : ℕ) → eqb (clock k).for_time 0 ≡ false)
      → AllSettled p print settings clock n es m
          (observe_all p print settings (memory_repository p) clock n es m)
  unfolding observe_all AllSettled
  observe_all-AllSettled clock n [] m dated = tt
  observe_all-AllSettled clock n (e ∷ es) m dated = (
    stays-IsSettled clock (n + 1) es (clock n).for_ingest _ m _
        (observe-IsSettled (clock n) e m (dated n)),
    observe_all-AllSettled clock (n + 1) es _ dated,
  )

-- A conflict is the only way in which an event is lost: after a round in which the client lists events,
-- the memory repository has for each of them the event that was made of it, collapsed or not, under its
-- id and with its hash, or had answered its ingest with a conflict. The clock is past the zero time, and
-- the encoders of JSON write maps and canonical forms.
pub poll_events-AllSettled :
    (p : Platform) (print : Printing) (encoding : IsEncoding p) (c : Collector MemoryRepository)
    (client : EventClient) (clock : ℕ → Readings) (s : Polling MemoryRepository)
    (events : List KubernetesEvent) (version : String)
    → c.client ≡ some client
    → c.sink ≡ some (memory_repository p)
    → client c.settings.namespace s.last_resource_version ≡ ok (events, version)
    → ((k : ℕ) → eqb (clock k).for_time 0 ≡ false)
    → AllSettled p print c.settings clock 0 events s.repo (poll_events p print c clock s).repo
unfolding poll_events after_list
poll_events-AllSettled p print encoding c client clock s events version asked kept answered dated =
    rw asked (
      rw kept (
        rw answered
          (observe_all-AllSettled p print encoding c.settings clock 0 events s.repo dated)))
