-- ===== src/Argo/Collector.antt =====
-- The Collector of internal/ingest/argo/collector.go: its polling loop, its informer's handler, and
-- the file of its checkpoint. Logging, spans and metrics are left out.
pub mod Object
pub mod Cursors
pub mod Storing
pub mod Losing
use evidra_gitops.Base.{ℕ, ◌+◌, String, Bool, true, false, Option, none, some, List, [], ◌∷◌}
use evidra_gitops.Base.Dict.{Dict}
use evidra_gitops.Result.{Error, Result, ok, err}
use evidra_gitops.Event.{StoredEvent}
use evidra_gitops.App.{Repository}
use evidra_gitops.Argo.{SourceEvent, AppCheckpoint}
use evidra_gitops.Argo.Checkpoint.{should_process, advance_checkpoint}

-- CheckpointStore of internal/ingest/argo/checkpoint.go, over the state of a disk
pub record CheckpointStore (D : Type 0) : Type 0 where
  pub load : D → Result (Dict AppCheckpoint)
  pub save : Dict AppCheckpoint → D → Result (Unit {0}) × D

-- The fields of Collector that are set once. `target` is `none` where Normalize or Sink is nil.
pub record Collector (R D : Type 0) : Type 0 where
  pub target : Option ((SourceEvent → Result StoredEvent) × Repository R)
  pub checkpoint : Option (CheckpointStore D)

-- What changes as a collector runs, with the repository and the disk behind it.
pub record CollectorState (R D : Type 0) : Type 0 where
  pub app_cursors : Dict AppCheckpoint
  pub checkpoint_loaded : Bool
  pub repo : R
  pub disk : D

-- How the treatment of one event ends.
pub data Outcome : Type 0 where
  skipped no_target collected : Outcome
  not_normalized not_ingested : Error → Outcome

module _ {R D : Type 0} (c : Collector R D) where
  -- A normalized event is ingested, and the checkpoint advanced if that succeeds.
  unfoldable pub ingest_normalized :
      Repository R
      → ℕ
      → SourceEvent
      → StoredEvent
      → CollectorState R D
      → Outcome × CollectorState R D
  ingest_normalized sink now se e s =
      let (answer, repo) = sink.ingest_event now e s.repo in
      elim answer [
        | err failure ↦ (not_ingested failure, record s { repo = repo })
        | ok status ↦
            (collected, record s { repo = repo; app_cursors = advance_checkpoint s.app_cursors se })
      ]

  unfoldable pub normalize_and_ingest :
      (SourceEvent → Result StoredEvent)
      → Repository R
      → ℕ
      → SourceEvent
      → CollectorState R D
      → Outcome × CollectorState R D
  normalize_and_ingest normalize sink now se s = elim (normalize se) [
    | err failure ↦ (not_normalized failure, s)
    | ok e ↦ ingest_normalized sink now se e s
  ]

  -- The body of the polling loop, which is the end of handleAppEvent too.
  unfoldable pub collect : ℕ → SourceEvent → CollectorState R D → Outcome × CollectorState R D
  collect now se s = elim (should_process s.app_cursors se) [
    | false ↦ (skipped, s)
    | true ↦ elim c.target [
      | none ↦ (no_target, s)
      | some (normalize, sink) ↦ normalize_and_ingest normalize sink now se s
    ]
  ]

  -- The loop over the fetched events; the n-th ingest reads the clock's n-th time.
  unfoldable pub collect_all :
      (ℕ → ℕ) → ℕ → List SourceEvent → CollectorState R D → List Outcome × CollectorState R D
  collect_all clock n [] s = ([], s)
  collect_all clock n (se ∷ ses) s =
      let (outcome, after) = collect (clock n) se s in
      let (outcomes, last) = collect_all clock (n + 1) ses after in (outcome ∷ outcomes, last)

  -- saveCheckpoint: a failure is only logged.
  unfoldable pub save_checkpoint : CollectorState R D → CollectorState R D
  save_checkpoint s = elim c.checkpoint [
    | none ↦ s
    | some store ↦ record s { disk = (store.save s.app_cursors s.disk).1 }
  ]

  -- loadCheckpoint
  unfoldable pub load_checkpoint : CollectorState R D → CollectorState R D
  load_checkpoint s =
      let loaded = record s { checkpoint_loaded = true } in
      elim s.checkpoint_loaded [
        | true ↦ loaded
        | false ↦ elim c.checkpoint [
          | none ↦ loaded
          | some store ↦ elim (store.load s.disk) [
            | err failure ↦ loaded
            | ok cursors ↦ record loaded { app_cursors = cursors }
          ]
        ]
      ]

  -- One round of the polling loop, with what the fetch returns.
  unfoldable pub poll :
      (ℕ → ℕ) → Result (List SourceEvent) → CollectorState R D → CollectorState R D
  poll clock (err failure) s = s
  poll clock (ok events) s = save_checkpoint (collect_all clock 0 events s).1

  -- The rounds of a collector's life, each with its clock and its fetch.
  unfoldable pub polls :
      List ((ℕ → ℕ) × Result (List SourceEvent)) → CollectorState R D → CollectorState R D
  polls [] s = s
  polls ((clock, fetched) ∷ rounds) s = polls rounds (poll clock fetched s)
