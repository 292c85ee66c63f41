-- ===== src/Argo/Collector/Losing.antt =====
-- The polling loop of internal/ingest/argo/collector.go goes on after an event that it could not
-- ingest: what becomes of that event.
use evidra_gitops.Base.{ℕ, ◌≡◌, ap, ◌∙◌, true, List}
use evidra_gitops.Base.Int.{ltb_ℤ, is_positive}
use evidra_gitops.Result.{Result}
use evidra_gitops.Argo.{SourceEvent}
use evidra_gitops.Argo.Checkpoint.{should_process, kind, history, source_app_key}
use evidra_gitops.Argo.Checkpoint.History.{advance_all, should_process-later}
use evidra_gitops.Argo.Collector.{Collector, CollectorState, skipped, collected, collect, polls}
use evidra_gitops.Argo.Collector.Cursors.{cursors-polls, cursors-collected, skipped-collect}

module _ {R D : Type 0} (c : Collector R D) where
  -- Once an event with a history id is collected, each event of the same application with a lower
  -- history id above zero is skipped in all further rounds, also one that was never collected.
  pub collect_passes_over :
      (now later : ℕ) (missed next : SourceEvent) (s : CollectorState R D)
      (rounds : List ((ℕ → ℕ) × Result (List SourceEvent)))
      → kind missed ≡ history
      → kind next ≡ history
      → source_app_key next ≡ source_app_key missed
      → is_positive missed.history_id ≡ true
      → ltb_ℤ missed.history_id next.history_id ≡ true
      → (collect c now next s).0 ≡ collected
      → collect c later missed (polls c rounds (collect c now next s).1)
        ≡ (skipped, polls c rounds (collect c now next s).1)
  collect_passes_over now later missed next s rounds m_history n_history same numbered further
        done =
      let after = (collect c now next s).1 in
      let (ses, shape) = cursors-polls c rounds after in
      skipped-collect c later missed (polls c rounds after) (
        ap (λ cursors. should_process cursors missed)
          (shape ∙ ap (λ cursors. advance_all cursors ses) (cursors-collected c now next s done))
        ∙ should_process-later s.app_cursors missed next ses m_history n_history same numbered
            further)
