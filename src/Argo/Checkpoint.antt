-- ===== src/Argo/Checkpoint.antt =====
-- The cursors of the collector: shouldProcess and advanceCheckpoint of
-- internal/ingest/argo/collector.go, and the file of internal/ingest/argo/checkpoint.go.
pub mod Skips
pub mod History
pub mod Restart
use evidra_gitops.Base.{
  ℕ, String, Bool, true, false, not, ◌&&◌, ◌||◌, Option, none, some, List, [], ◌∷◌, ◌==◌,
  if◌then◌else◌, ltb, trim_space, equal_fold,
}
use evidra_gitops.Base.Int.{ℤ, pos, negsuc, ltb_ℤ, eqb_ℤ, is_positive}
use evidra_gitops.Base.Dict.{Dict, lookup, insert}
use evidra_gitops.Argo.{SourceEvent, AppCheckpoint}

-- The zero value, which a map returns for a missing key.
abbrev pub no_checkpoint : AppCheckpoint
no_checkpoint = record {
  last_history_id = pos 0;
  last_history_at = 0;
  last_start_key = "";
  last_terminal_key = "";
  last_health = "";
}

unfoldable pub cursor_or_zero : Option AppCheckpoint → AppCheckpoint
cursor_or_zero none = no_checkpoint
cursor_or_zero (some c) = c

-- sourceAppKey
unfoldable pub source_app_key : SourceEvent → String
source_app_key se = if trim_space se.app_uid == "" then trim_space se.app else trim_space se.app_uid

-- `c.appCursors[sourceAppKey(se)]`
unfoldable pub cursor_of : Dict AppCheckpoint → SourceEvent → AppCheckpoint
cursor_of cursors se = cursor_or_zero (lookup (source_app_key se) cursors)

-- historyCursorShouldProcess
unfoldable pub history_cursor_should_process : SourceEvent → AppCheckpoint → Bool
history_cursor_should_process se cursor =
    if is_positive se.history_id
    then ltb_ℤ cursor.last_history_id se.history_id
      || (eqb_ℤ se.history_id cursor.last_history_id && ltb cursor.last_history_at se.occurred)
    else if trim_space se.operation_key == ""
    then false
    else not (trim_space se.operation_key == trim_space cursor.last_terminal_key)

-- updateHistoryCursor
unfoldable pub update_history_cursor : AppCheckpoint → SourceEvent → AppCheckpoint
update_history_cursor cursor se =
    if is_positive se.history_id
    then record cursor {
      last_history_id =
          if ltb_ℤ cursor.last_history_id se.history_id
          then se.history_id
          else cursor.last_history_id;
      last_history_at =
          if ltb cursor.last_history_at se.occurred then se.occurred else cursor.last_history_at;
    }
    else if trim_space se.operation_key == ""
    then cursor
    else record cursor { last_terminal_key = trim_space se.operation_key }

-- The cases of the `switch` on the type of an event.
pub data EventKind : Type 0 where
  history started health other_kind : EventKind

unfoldable pub kind_of : String → EventKind
kind_of event_type =
    if event_type == "argo.deployment.recorded" || event_type == "argo.sync.finished"
    then history
    else if event_type == "argo.sync.started"
    then started
    else if event_type == "argo.health.changed"
    then health
    else other_kind

abbrev pub kind : SourceEvent → EventKind
kind se = kind_of (trim_space se.event_type)

unfoldable pub is_new : EventKind → SourceEvent → AppCheckpoint → Bool
is_new history se cursor = history_cursor_should_process se cursor
is_new started se cursor =
    not (trim_space se.operation_key == "")
    && not (trim_space se.operation_key == trim_space cursor.last_start_key)
is_new health se cursor =
    not (trim_space se.health_status == "")
    && not (equal_fold (trim_space se.health_status) (trim_space cursor.last_health))
is_new other_kind se cursor = true

-- shouldProcess
unfoldable pub should_process : Dict AppCheckpoint → SourceEvent → Bool
should_process cursors se =
    if trim_space se.id == "" || trim_space se.event_type == ""
    then false
    else is_new (kind se) se (cursor_of cursors se)

unfoldable pub advanced : EventKind → SourceEvent → AppCheckpoint → AppCheckpoint
advanced history se cursor = update_history_cursor cursor se
advanced started se cursor =
    if trim_space se.operation_key == ""
    then cursor
    else record cursor { last_start_key = trim_space se.operation_key }
advanced health se cursor =
    if trim_space se.health_status == ""
    then cursor
    else record cursor { last_health = trim_space se.health_status }
advanced other_kind se cursor = cursor

-- advanceCheckpoint
unfoldable pub advance_checkpoint : Dict AppCheckpoint → SourceEvent → Dict AppCheckpoint
advance_checkpoint cursors se =
    insert (source_app_key se) (advanced (kind se) se (cursor_of cursors se)) cursors
