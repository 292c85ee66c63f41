-- ===== src/Argo/Collector/Object/Resync.antt =====
-- The informer of internal/ingest/argo/collector.go hands the same Application to handleAppEvent again
-- at each resync: what the checkpoint makes of that.
use evidra_gitops.Base.{
  ℕ, ◌≡◌, refl, sym, ap, ◌∙◌, true, false, none, some, List, arith, eqb, trim_space,
}
use evidra_gitops.Base.Int.{is_positive}
use evidra_gitops.Base.Dict.{Dict}
use evidra_gitops.Result.{Result}
use evidra_gitops.Event.Platform.{Platform}
use evidra_gitops.Value.{Value}
use evidra_gitops.Argo.{SourceEvent, AppCheckpoint}
use evidra_gitops.Argo.Checkpoint.{
  kind, history, kind_of, is_new, history_cursor_should_process, cursor_of, source_app_key,
  should_process,
}
use evidra_gitops.Argo.Checkpoint.Skips.{old-should_process}
use evidra_gitops.Argo.Checkpoint.History.{advance_all, old-advance_all}
use evidra_gitops.Argo.Collector.{
  Collector, CollectorState, Outcome, skipped, no_target, collected, not_normalized, not_ingested,
  collect, polls,
}
use evidra_gitops.Argo.Collector.Cursors.{
  cursors-polls, cursors-collected, cursors-save_checkpoint, skipped-collect,
}
use evidra_gitops.Argo.Collector.Object.{
  AppObject, Deployment, read_deployment, source_event_of, occurred_of, saved_if_collected,
  handle_app_event,
}

same_occurred :
    (p : Platform) (now again : ℕ) (content : Dict Value) (d : Deployment)
    → eqb d.deployed 0 ≡ false
    → occurred_of p again content d ≡ occurred_of p now content d
unfolding occurred_of
same_occurred p now again content d dated = rw dated refl

-- The cursors judge the events of two readings of the clock alike.
same_age :
    (p : Platform) (now nanos again nanos' : ℕ) (app : AppObject) (d : Deployment)
    (cursors : Dict AppCheckpoint)
    → eqb d.deployed 0 ≡ false
    → is_new history
        (source_event_of p again nanos' app d)
        (cursor_of cursors (source_event_of p again nanos' app d))
      ≡ is_new history
          (source_event_of p now nanos app d)
          (cursor_of cursors (source_event_of p now nanos app d))
unfolding source_event_of is_new history_cursor_should_process cursor_of source_app_key
same_age p now nanos again nanos' app d cursors dated =
    rw (same_occurred p now again app.content d dated) refl

is_history :
    (p : Platform) (now nanos : ℕ) (app : AppObject) (d : Deployment)
    → kind (source_event_of p now nanos app d) ≡ history
unfolding source_event_of kind_of trim_space
is_history p now nanos app d = refl

module _ {R D : Type 0} (c : Collector R D) where
  -- A treatment whose result is that the event was collected.
  saved-collected :
      (r : Outcome × CollectorState R D) (s : CollectorState R D)
      → saved_if_collected c r ≡ (collected, s)
      → (r.0 ≡ collected) × (s.app_cursors ≡ r.1.app_cursors)
  unfolding saved_if_collected
  saved-collected (collected, a) s h = (
    refl,
    ap (λ (r : Outcome × CollectorState R D). r.1.app_cursors) (sym h)
        ∙ cursors-save_checkpoint c a,
  )
  saved-collected (skipped, a) s h =
      absurd (ground (arith, ap (λ (r : Outcome × CollectorState R D). r.0) h))
  saved-collected (no_target, a) s h =
      absurd (ground (arith, ap (λ (r : Outcome × CollectorState R D). r.0) h))
  saved-collected (not_normalized e, a) s h =
      absurd (ground (arith, ap (λ (r : Outcome × CollectorState R D). r.0) h))
  saved-collected (not_ingested e, a) s h =
      absurd (ground (arith, ap (λ (r : Outcome × CollectorState R D). r.0) h))

  opened :
      (p : Platform) (now nanos later : ℕ) (app : AppObject) (d : Deployment)
      (s : CollectorState R D)
      → read_deployment p app.content ≡ some d
      → handle_app_event c p now nanos later app s
        ≡ some (saved_if_collected c (collect c later (source_event_of p now nanos app d) s))
  unfolding handle_app_event
  opened p now nanos later app d s known = rw (known, handle_app_event)

  some_inj : {A : Type 0} (a b : A) → some a ≡ some b → a ≡ b
  some_inj a b h = ap (λ o. elim o [ none ↦ a | some x ↦ x ]) h

  skipped_again :
      (now : ℕ) (se : SourceEvent) (s : CollectorState R D)
      → should_process s.app_cursors se ≡ false
      → saved_if_collected c (collect c now se s) ≡ (skipped, s)
  unfolding saved_if_collected
  skipped_again now se s old = rw (skipped-collect c now se s old) refl

  -- An Application whose last deployment has an id above zero and a time is collected once: handed over
  -- again at any later times, after any rounds of polling, it is skipped and nothing changes.
  pub handle_app_event_once :
      (p : Platform) (now nanos later now' nanos' later' : ℕ) (app : AppObject) (d : Deployment)
      (s after : CollectorState R D) (rounds : List ((ℕ → ℕ) × Result (List SourceEvent)))
      → read_deployment p app.content ≡ some d
      → is_positive d.id ≡ true
      → eqb d.deployed 0 ≡ false
      → handle_app_event c p now nanos later app s ≡ some (collected, after)
      → handle_app_event c p now' nanos' later' app (polls c rounds after)
        ≡ some (skipped, polls c rounds after)
  unfolding source_event_of
  handle_app_event_once p now nanos later now' nanos' later' app d s after rounds known numbered
        dated done =
      let se = source_event_of p now nanos app d in
      let again = source_event_of p now' nanos' app d in
      let (was, kept) =
        saved-collected (collect c later se s) after
          (some_inj _ _ (sym (opened p now nanos later app d s known) ∙ done)) in
      let (ses, shape) = cursors-polls c rounds after in
      let cursors = (polls c rounds after).app_cursors in
      let cursors_shape =
        shape ∙ ap (λ m. advance_all m ses) (kept ∙ cursors-collected c later se s was) in
      let old =
        same_age p now nanos now' nanos' app d cursors dated
        ∙ ap (λ m. is_new history se (cursor_of m se)) cursors_shape
        ∙ old-advance_all s.app_cursors se ses (is_history p now nanos app d) numbered in
      opened p now' nanos' later' app d (polls c rounds after) known
      ∙ ap some (
          skipped_again later' again (polls c rounds after) (
            old-should_process cursors again (
              ap (λ k. is_new k again (cursor_of cursors again)) (is_history p now' nanos' app d)
              ∙ old)))
