-- ===== src/Api/Events/Stored.antt =====
-- A batch that handleEvents of internal/api/handlers_events.go acknowledges is stored: its loop over
-- the memory repository of internal/store/store.go.
use mathlib.Core.Path.{subst}
use evidra_gitops.Base.{
  eq_refl, ℕ, ◌+◌, String, ◌≡◌, refl, sym, ap, ◌∙◌, some, List, [], ◌∷◌, arith, inl, inr, All,
  Option-cases, eq_refl,
}
use evidra_gitops.Base.Dict.{lookup, lookup-insert}
use evidra_gitops.Result.{ok, Result-cases}
use evidra_gitops.Event.{StoredEvent}
use evidra_gitops.Event.Platform.{Platform}
use evidra_gitops.Store.{IngestStatus, Ingested, MemoryRepository, store_event}
use evidra_gitops.Store
use evidra_gitops.Store.Ingest.{
  stamped, store_event_known, store_event_fresh, ingest_event-hashed, ingest_event_passed,
  ingest_event-keeps, hashed-id,
}
use evidra_gitops.App.{Cache, Service}
use evidra_gitops.App
use evidra_gitops.App.Memory.{memory_repository}
use evidra_gitops.Api.Events.{Ingestion, ingest_events}

-- The id is taken.
unfoldable pub IsStored : MemoryRepository → String → Type 0
IsStored m id = (e : StoredEvent) × (lookup id m.events ≡ some e)

pub known_unchanged :
    (now : ℕ) (e old : StoredEvent) (m : MemoryRepository)
    → lookup e.id m.events ≡ some old
    → (store_event now e m).1 ≡ m
known_unchanged now e old m known = rw (store_event_known now e old m known) (ground arith)

store_event-IsStored :
    (now t : ℕ) (status : IngestStatus) (e : StoredEvent) (m : MemoryRepository)
    → (store_event now e m).0 ≡ ok (status, t)
    → IsStored (store_event now e m).1 e.id
unfolding IsStored
store_event-IsStored now t status e m h = elim (Option-cases (lookup e.id m.events)) [
  | inl fresh ↦ rw (store_event_fresh now e m fresh) (stamped now e, rw (lookup-insert, eq_refl))
  | inr (old, known) ↦ (
    old,
    ap (λ (r : MemoryRepository). lookup e.id r.events) (known_unchanged now e old m known) ∙ known,
  )
]

pub ingest_event-IsStored :
    (p : Platform) (now t : ℕ) (status : IngestStatus) (e : StoredEvent) (m : MemoryRepository)
    → (Store.ingest_event p now e m).0 ≡ ok (status, t)
    → IsStored (Store.ingest_event p now e m).1 e.id
ingest_event-IsStored p now t status e m r =
    let (valid, h, made) = ingest_event_passed p now t e m status r in
    let shape = ingest_event-hashed p now e h m valid made in
    rw shape (
      subst (IsStored (store_event now h m).1) (hashed-id p e h made)
        (store_event-IsStored now t status h m (sym (ap (λ (r : Ingested). r.0) shape) ∙ r)))

module _ {C : Type 0} (p : Platform) (cache : Cache C) where
  repo_after :
      (now : ℕ) (e : StoredEvent) (s : Service MemoryRepository C)
      → (App.ingest_event (memory_repository p) cache now e s).1.repo
        ≡ (Store.ingest_event p now e s.repo).1
  unfolding App.ingest_event memory_repository
  repo_after now e s = elim (Result-cases (Store.ingest_event p now e s.repo).0) [
    | inl (status, done) ↦ rw (done, App.ingest_event)
    | inr (failure, failed) ↦ rw (failed, App.ingest_event)
  ]

  answer_of_ingest :
      (now : ℕ) (e : StoredEvent) (s : Service MemoryRepository C)
      → (App.ingest_event (memory_repository p) cache now e s).0
        ≡ (Store.ingest_event p now e s.repo).0
  unfolding App.ingest_event memory_repository
  answer_of_ingest now e s = refl

  kept_by_ingest :
      (now : ℕ) (e : StoredEvent) (s : Service MemoryRepository C) (id : String)
      → IsStored s.repo id
      → IsStored (App.ingest_event (memory_repository p) cache now e s).1.repo id
  unfolding IsStored
  kept_by_ingest now e s id (old, found) =
      subst (λ m. IsStored m id) (sym (repo_after now e s))
        (old, ingest_event-keeps p now e s.repo id old found)

  kept_by_loop :
      (clock : ℕ → ℕ) (n : ℕ) (es : List StoredEvent) (s : Service MemoryRepository C) (id : String)
      → IsStored s.repo id
      → IsStored (ingest_events p (memory_repository p) cache clock n es s).1.repo id
  unfolding ingest_events
  kept_by_loop clock n [] s id held = held
  kept_by_loop clock n (e ∷ es) s id held =
      let after = (App.ingest_event (memory_repository p) cache (clock n) e s).1 in
      let held_after = kept_by_ingest (clock n) e s id held in
      let ih = kept_by_loop clock (n + 1) es after id held_after in
      elim (Result-cases (App.ingest_event (memory_repository p) cache (clock n) e s).0) [
        | inr (failure, failed) ↦ rw (failed, ingest_events) held_after
        | inl (status, done) ↦
            elim (Result-cases
              (ingest_events p (memory_repository p) cache clock (n + 1) es after).0) [
                | inr (failure, failed) ↦ rw (done, ingest_events) (rw failed ih)
                | inl (entries, rest) ↦ rw (done, ingest_events) (rw rest ih)
              ]
      ]

  -- What a loop has gone through that returned entries.
  loop_passed :
      (clock : ℕ → ℕ) (n : ℕ) (e : StoredEvent) (es : List StoredEvent)
      (s : Service MemoryRepository C) (entries : List Ingestion)
      → (ingest_events p (memory_repository p) cache clock n (e ∷ es) s).0 ≡ ok entries
      → (status : IngestStatus × ℕ) × ((App.ingest_event
            (memory_repository p)
            cache
            (clock n)
            e
            s).0
          ≡ ok status)
        × (rest : List Ingestion) × ((ingest_events p
              (memory_repository p)
              cache
              clock
              (n + 1)
              es
              (App.ingest_event (memory_repository p) cache (clock n) e s).1).0
            ≡ ok rest)
        × ((ingest_events p (memory_repository p) cache clock n (e ∷ es) s).1
            ≡ (ingest_events p
                (memory_repository p)
                cache
                clock
                (n + 1)
                es
                (App.ingest_event (memory_repository p) cache (clock n) e s).1).1)
  unfolding ingest_events
  loop_passed clock n e es s entries h =
      let after = (App.ingest_event (memory_repository p) cache (clock n) e s).1 in
      elim (Result-cases (App.ingest_event (memory_repository p) cache (clock n) e s).0) [
        | inr (failure, failed) ↦ absurd (ground (arith, failed, h))
        | inl (status, done) ↦
            elim (Result-cases
              (ingest_events p (memory_repository p) cache clock (n + 1) es after).0) [
                | inr (failure, failed) ↦ absurd (ground (arith, done, failed, h))
                | inl (rest, listed) ↦
                    (status, done, rest, listed, rw (done, ingest_events) (rw listed))
              ]
      ]

  -- A batch that is answered with an entry for each event is stored: afterwards, an event is found
  -- under the id of each of its events.
  pub ingest_events-IsStored :
      (clock : ℕ → ℕ) (n : ℕ) (es : List StoredEvent) (s : Service MemoryRepository C)
      (entries : List Ingestion)
      → (ingest_events p (memory_repository p) cache clock n es s).0 ≡ ok entries
      → All
          (λ (e : StoredEvent).
            IsStored (ingest_events p (memory_repository p) cache clock n es s).1.repo e.id)
          es
  unfolding ingest_events
  ingest_events-IsStored clock n [] s entries h = tt
  ingest_events-IsStored clock n (e ∷ es) s entries h =
      let (status, done, rest, listed, same) = loop_passed clock n e es s entries h in
      let after = (App.ingest_event (memory_repository p) cache (clock n) e s).1 in
      let last = (ingest_events p (memory_repository p) cache clock (n + 1) es after).1 in
      let stored =
        subst (λ m. IsStored m e.id) (sym (repo_after (clock n) e s))
          (ingest_event-IsStored p (clock n) status.1 status.0 e s.repo
            (sym (answer_of_ingest (clock n) e s) ∙ done)) in
      subst
        (λ (r : Service MemoryRepository C).
          All (λ (e : StoredEvent). IsStored r.repo e.id) (e ∷ es))
        (sym same)
        (
          kept_by_loop clock (n + 1) es after e.id stored,
          ingest_events-IsStored clock (n + 1) es after rest listed,
        )
