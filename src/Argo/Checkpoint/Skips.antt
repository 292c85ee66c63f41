-- ===== src/Argo/Checkpoint/Skips.antt =====
-- What shouldProcess and advanceCheckpoint of internal/ingest/argo/collector.go make of each other: an
-- event that was collected is skipped.
use evidra_gitops.Base.{
  ◌≡◌, false, ◌==◌, arith, eq_refl, if◌then◌else◌, Bool-cases, inl, inr, trim_space,
  trim_space_idem,
}
use evidra_gitops.Base.Dict.{Dict, lookup-insert}
use evidra_gitops.Argo.{SourceEvent, AppCheckpoint}
use evidra_gitops.Argo.Checkpoint.{
  source_app_key, cursor_or_zero, cursor_of, history_cursor_should_process, update_history_cursor,
  history, kind, is_new, should_process, advanced, advance_checkpoint,
}

-- A cursor that an event has advanced takes the event for old.
pub advanced-history :
    (se : SourceEvent) (c : AppCheckpoint) → is_new history se (advanced history se c) ≡ false
unfolding is_new advanced history_cursor_should_process update_history_cursor
advanced-history se c =
    ground (arith, trim_space_idem se.operation_key, eq_refl (trim_space se.operation_key))

-- The cursor of an event after another has been collected.
pub cursor_of-advance_checkpoint :
    (cursors : Dict AppCheckpoint) (se other : SourceEvent)
    → cursor_of (advance_checkpoint cursors other) se ≡ (
        if source_app_key other == source_app_key se
        then advanced (kind other) other (cursor_of cursors other)
        else cursor_of cursors se)
unfolding cursor_of advance_checkpoint cursor_or_zero
cursor_of-advance_checkpoint cursors se other =
    elim (Bool-cases (source_app_key other == source_app_key se)) [
      | inl same ↦ rw lookup-insert (rw same)
      | inr apart ↦ rw lookup-insert (rw apart)
    ]

pub old-should_process :
    (cursors : Dict AppCheckpoint) (se : SourceEvent)
    → is_new (kind se) se (cursor_of cursors se) ≡ false
    → should_process cursors se ≡ false
unfolding should_process
old-should_process cursors se old = rw old (ground arith)
