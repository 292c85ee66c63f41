-- ===== src/Argo/Collector/Cursors.antt =====
-- The checkpoint of the Collector of internal/ingest/argo/collector.go through any rounds of polling:
-- it is advanced by the events that were collected, and by no others.
use evidra_gitops.Base.{
  ℕ, ◌+◌, ◌≡◌, refl, ap, ◌∙◌, Bool, true, false, List, [], ◌∷◌, ◌++◌, if◌then◌else◌, Bool-cases,
  Option-cases, inl, inr,
}
use evidra_gitops.Base.Int.{is_positive}
use evidra_gitops.Base.Dict.{Dict}
use evidra_gitops.Result.{Result, ok, err, Result-cases}
use evidra_gitops.Event.{StoredEvent}
use evidra_gitops.App.{Repository}
use evidra_gitops.Argo.{SourceEvent, AppCheckpoint}
use evidra_gitops.Argo.Checkpoint.{should_process, advance_checkpoint, kind, history}
use evidra_gitops.Argo.Checkpoint.History.{advance_all, should_process-advance_all}
use evidra_gitops.Argo.Collector.{
  Collector, CollectorState, Outcome, skipped, no_target, collected, not_normalized, not_ingested,
  ingest_normalized, normalize_and_ingest, collect, collect_all, save_checkpoint, poll, polls,
}

abbrev pub is_collected : Outcome → Bool
is_collected collected = true
is_collected skipped = false
is_collected no_target = false
is_collected (not_normalized failure) = false
is_collected (not_ingested failure) = false

-- The cursors after an event with the given outcome.
abbrev pub advanced_if : Outcome → SourceEvent → Dict AppCheckpoint → Dict AppCheckpoint
advanced_if o se cursors = if is_collected o then advance_checkpoint cursors se else cursors

module _ {R D : Type 0} (c : Collector R D) where
  cursors-ingest_normalized :
      (sink : Repository R) (now : ℕ) (se : SourceEvent) (e : StoredEvent) (s : CollectorState R D)
      → (ingest_normalized c sink now se e s).1.app_cursors
        ≡ advanced_if (ingest_normalized c sink now se e s).0 se s.app_cursors
  unfolding ingest_normalized
  cursors-ingest_normalized sink now se e s =
      elim (Result-cases (sink.ingest_event now e s.repo).0) [
        | inl (status, done) ↦ rw (done, ingest_normalized)
        | inr (failure, failed) ↦ rw (failed, ingest_normalized)
      ]

  cursors-normalize_and_ingest :
      (normalize : SourceEvent → Result StoredEvent) (sink : Repository R) (now : ℕ)
      (se : SourceEvent) (s : CollectorState R D)
      → (normalize_and_ingest c normalize sink now se s).1.app_cursors
        ≡ advanced_if (normalize_and_ingest c normalize sink now se s).0 se s.app_cursors
  unfolding normalize_and_ingest
  cursors-normalize_and_ingest normalize sink now se s = elim (Result-cases (normalize se)) [
    | inl (e, made) ↦ rw (made, normalize_and_ingest) (cursors-ingest_normalized sink now se e s)
    | inr (failure, failed) ↦ rw (failed, normalize_and_ingest)
  ]

  -- The treatment of an event advances its application's cursor exactly if the event is collected.
  pub cursors-collect :
      (now : ℕ) (se : SourceEvent) (s : CollectorState R D)
      → (collect c now se s).1.app_cursors ≡ advanced_if (collect c now se s).0 se s.app_cursors
  unfolding collect
  cursors-collect now se s = elim (Bool-cases (should_process s.app_cursors se)) [
    | inr old ↦ rw (old, collect)
    | inl new ↦ elim (Option-cases c.target) [
      | inl absent ↦ rw (new, collect) (rw (absent, collect))
      | inr ((normalize, sink), present) ↦
          rw (new, collect)
            (rw (present, collect) (cursors-normalize_and_ingest normalize sink now se s))
    ]
  ]

  -- The events that were collected, of those that were treated.
  unfoldable pub collected_of : List Outcome → List SourceEvent → List SourceEvent
  collected_of [] ses = []
  collected_of (o ∷ os) [] = []
  collected_of (o ∷ os) (se ∷ ses) =
      let rest = collected_of os ses in if is_collected o then se ∷ rest else rest

  advance_all-cons :
      (o : Outcome) (se : SourceEvent) (rest : List SourceEvent) (cursors : Dict AppCheckpoint)
      → advance_all (advanced_if o se cursors) rest
        ≡ advance_all cursors (if is_collected o then se ∷ rest else rest)
  unfolding advance_all
  advance_all-cons o se rest cursors = elim (Bool-cases (is_collected o)) [
    | inl new ↦ rw new
    | inr old ↦ rw old
  ]

  -- A round of treatment leaves the checkpoint as the collected events make it, in their order.
  pub cursors-collect_all :
      (clock : ℕ → ℕ) (n : ℕ) (ses : List SourceEvent) (s : CollectorState R D)
      → (collect_all c clock n ses s).1.app_cursors
        ≡ advance_all s.app_cursors (collected_of (collect_all c clock n ses s).0 ses)
  unfolding collect_all collected_of
  cursors-collect_all clock n [] s = unfold advance_all in refl
  cursors-collect_all clock n (se ∷ ses) s =
      let after = (collect c (clock n) se s).1 in
      let rest = collected_of (collect_all c clock (n + 1) ses after).0 ses in
      cursors-collect_all clock (n + 1) ses after
      ∙ ap (λ cursors. advance_all cursors rest) (cursors-collect (clock n) se s)
      ∙ advance_all-cons (collect c (clock n) se s).0 se rest s.app_cursors

  pub cursors-save_checkpoint :
      (s : CollectorState R D) → (save_checkpoint c s).app_cursors ≡ s.app_cursors
  unfolding save_checkpoint
  cursors-save_checkpoint s = elim (Option-cases c.checkpoint) [
    | inl absent ↦ rw (absent, save_checkpoint)
    | inr (store, present) ↦ rw (present, save_checkpoint)
  ]

  advance_all-append :
      (xs ys : List SourceEvent) (cursors : Dict AppCheckpoint)
      → advance_all (advance_all cursors xs) ys ≡ advance_all cursors (xs ++ ys)
  unfolding advance_all
  advance_all-append [] ys cursors = refl
  advance_all-append (x ∷ xs) ys cursors = advance_all-append xs ys (advance_checkpoint cursors x)

  -- The checkpoint after any rounds.
  pub cursors-polls :
      (rounds : List ((ℕ → ℕ) × Result (List SourceEvent))) (s : CollectorState R D)
      → (ses : List SourceEvent) × ((polls c rounds s).app_cursors ≡ advance_all s.app_cursors ses)
  unfolding polls poll
  cursors-polls [] s = ([], unfold advance_all in refl)
  cursors-polls ((clock, err failure) ∷ rounds) s = cursors-polls rounds s
  cursors-polls ((clock, ok events) ∷ rounds) s =
      let treated = collect_all c clock 0 events s in
      let (ses, later) = cursors-polls rounds (save_checkpoint c treated.1) in
      let now_done = collected_of treated.0 events in
      (
        now_done ++ ses,
        later
            ∙ ap (λ cursors. advance_all cursors ses)
                (cursors-save_checkpoint treated.1 ∙ cursors-collect_all clock 0 events s)
            ∙ advance_all-append now_done ses s.app_cursors,
      )

  pub skipped-collect :
      (now : ℕ) (se : SourceEvent) (s : CollectorState R D)
      → should_process s.app_cursors se ≡ false
      → collect c now se s ≡ (skipped, s)
  unfolding collect
  skipped-collect now se s old = rw (old, collect)

  pub cursors-collected :
      (now : ℕ) (se : SourceEvent) (s : CollectorState R D)
      → (collect c now se s).0 ≡ collected
      → (collect c now se s).1.app_cursors ≡ advance_checkpoint s.app_cursors se
  cursors-collected now se s done =
      cursors-collect now se s ∙ ap (λ o. advanced_if o se s.app_cursors) done

  -- A deployment or a finished sync with a history id that is collected is collected once: after any
  -- further rounds of polling it is skipped, and nothing changes.
  pub collect_once :
      (now later : ℕ) (se : SourceEvent) (s : CollectorState R D)
      (rounds : List ((ℕ → ℕ) × Result (List SourceEvent)))
      → kind se ≡ history
      → is_positive se.history_id ≡ true
      → (collect c now se s).0 ≡ collected
      → collect c later se (polls c rounds (collect c now se s).1)
        ≡ (skipped, polls c rounds (collect c now se s).1)
  collect_once now later se s rounds is_history numbered done =
      let after = (collect c now se s).1 in
      let (ses, shape) = cursors-polls rounds after in
      skipped-collect later se (polls c rounds after) (
        ap (λ cursors. should_process cursors se)
          (shape ∙ ap (λ cursors. advance_all cursors ses) (cursors-collected now se s done))
        ∙ should_process-advance_all s.app_cursors se ses is_history numbered)
