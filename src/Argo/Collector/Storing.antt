-- ===== src/Argo/Collector/Storing.antt =====
-- The events that the collector of internal/ingest/argo/collector.go counts as collected, where its
-- Normalize is NormalizeSourceEvent and its Sink keeps them in the memory repository of
-- internal/store/store.go.
use mathlib.Core.Path.{subst}
use evidra_gitops.Base.{
  ℕ, String, ◌<>◌, ◌≡◌, sym, ap, ◌∙◌, true, false, some, arith, inl, inr, Bool-cases,
}
use evidra_gitops.Result.{Error, Result, ok, err, Result-cases}
use evidra_gitops.Event.{StoredEvent}
use evidra_gitops.Event.Platform.{Platform}
use evidra_gitops.Store.{IngestStatus, MemoryRepository}
use evidra_gitops.App.Memory.{memory_repository}
use evidra_gitops.Store.Held.{IsHeld, ingest_event-IsHeld}
use evidra_gitops.Argo.{SourceEvent}
use evidra_gitops.Argo.Checkpoint.{should_process}
use evidra_gitops.Argo.Normalize.{normalize_source_event, event_of}
use evidra_gitops.Argo.Normalize.Validity.{normalize_source_event_returns}
use evidra_gitops.Argo.Collector.{
  Collector, CollectorState, Outcome, skipped, collected, not_normalized, ingest_normalized,
  normalize_and_ingest, collect,
}

-- Normalize, as the program sets it for its environment.
unfoldable pub normalizing : Platform → String → SourceEvent → Result StoredEvent
normalizing p env se = normalize_source_event p se env

-- The repository holds the event that is made of a source event.
unfoldable pub IsCollected : Platform → String → SourceEvent → MemoryRepository → Type 0
IsCollected p env se m =
    (e : StoredEvent) × (normalize_source_event p se env ≡ ok e)
    × (e.id ≡ "evt_argocd_" <> se.id)
    × IsHeld p m e

module _ {D : Type 0} (p : Platform) (env : String) (c : Collector MemoryRepository D) where
  ingest_normalized-IsHeld :
      (now : ℕ) (se : SourceEvent) (e : StoredEvent) (s : CollectorState MemoryRepository D)
      → (ingest_normalized c (memory_repository p) now se e s).0 ≡ collected
      → IsHeld p (ingest_normalized c (memory_repository p) now se e s).1.repo e
  unfolding ingest_normalized memory_repository
  ingest_normalized-IsHeld now se e s h =
      elim (Result-cases (evidra_gitops.Store.ingest_event p now e s.repo).0) [
        | inl ((status, t), done) ↦
            rw (done, ingest_normalized) (ingest_event-IsHeld p now e s.repo status t done)
        | inr (failure, failed) ↦ absurd (ground (arith, failed, h))
      ]

  id-normalized :
      (se : SourceEvent) (e : StoredEvent)
      → normalize_source_event p se env ≡ ok e
      → e.id ≡ "evt_argocd_" <> se.id
  unfolding event_of
  id-normalized se e made =
      let (complete, payload, encoded, shape) = normalize_source_event_returns p se env e made in
      ap (λ (e : StoredEvent). e.id) shape

  open_normalized :
      (now : ℕ) (se : SourceEvent) (e : StoredEvent) (s : CollectorState MemoryRepository D)
      → normalize_source_event p se env ≡ ok e
      → normalize_and_ingest c (normalizing p env) (memory_repository p) now se s
        ≡ ingest_normalized c (memory_repository p) now se e s
  unfolding normalize_and_ingest normalizing
  open_normalized now se e s made = rw (made, normalize_and_ingest)

  refused :
      (now : ℕ) (se : SourceEvent) (failure : Error) (s : CollectorState MemoryRepository D)
      → normalize_source_event p se env ≡ err failure
      → (normalize_and_ingest c (normalizing p env) (memory_repository p) now se s).0
        ≡ not_normalized failure
  unfolding normalize_and_ingest normalizing
  refused now se failure s failed = rw (failed, normalize_and_ingest)

  normalize_and_ingest-IsCollected :
      (now : ℕ) (se : SourceEvent) (s : CollectorState MemoryRepository D)
      → (normalize_and_ingest c (normalizing p env) (memory_repository p) now se s).0 ≡ collected
      → IsCollected p env se
          (normalize_and_ingest c (normalizing p env) (memory_repository p) now se s).1.repo
  unfolding IsCollected
  normalize_and_ingest-IsCollected now se s h =
      elim (Result-cases (normalize_source_event p se env)) [
        | inr (failure, failed) ↦ absurd (ground (arith, sym (refused now se failure s failed) ∙ h))
        | inl (e, made) ↦
            let opened = open_normalized now se e s made in
            subst
              (λ (r : Outcome × CollectorState MemoryRepository D). IsCollected p env se r.1.repo)
              (sym opened)
              (
                e,
                made,
                id-normalized se e made,
                ingest_normalized-IsHeld now se e s (
                    sym (ap (λ (r : Outcome × CollectorState MemoryRepository D). r.0) opened) ∙ h),
              )
      ]

  open_collect :
      (now : ℕ) (se : SourceEvent) (s : CollectorState MemoryRepository D)
      → c.target ≡ some (normalizing p env, memory_repository p)
      → should_process s.app_cursors se ≡ true
      → collect c now se s
        ≡ normalize_and_ingest c (normalizing p env) (memory_repository p) now se s
  unfolding collect
  open_collect now se s target new = rw (new, collect) (simp target)

  old_collect :
      (now : ℕ) (se : SourceEvent) (s : CollectorState MemoryRepository D)
      → should_process s.app_cursors se ≡ false
      → (collect c now se s).0 ≡ skipped
  unfolding collect
  old_collect now se s old = rw (old, collect)

  -- What the collector counts as collected is in the memory repository: if it normalizes for the
  -- environment and its sink is that repository, the event that is made of the source event has the id of
  -- the source event behind "evt_argocd_", and is stored under it, with its own hash.
  pub collect-IsCollected :
      (now : ℕ) (se : SourceEvent) (s : CollectorState MemoryRepository D)
      → c.target ≡ some (normalizing p env, memory_repository p)
      → (collect c now se s).0 ≡ collected
      → IsCollected p env se (collect c now se s).1.repo
  collect-IsCollected now se s target h = elim (Bool-cases (should_process s.app_cursors se)) [
    | inr old ↦ absurd (ground (arith, sym (old_collect now se s old) ∙ h))
    | inl new ↦
        let opened = open_collect now se s target new in
        subst (λ (r : Outcome × CollectorState MemoryRepository D). IsCollected p env se r.1.repo)
          (sym opened)
          (normalize_and_ingest-IsCollected now se s
            (sym (ap (λ (r : Outcome × CollectorState MemoryRepository D). r.0) opened) ∙ h))
  ]
