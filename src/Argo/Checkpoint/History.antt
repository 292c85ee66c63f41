-- ===== src/Argo/Checkpoint/History.antt =====
-- The history ids and times of the cursors of internal/ingest/argo/collector.go only grow, so an event
-- with a history id that is skipped once is skipped for good.
use mathlib.Core.Path.{subst}
use evidra_gitops.Base.{
  ◌≤◌, ◌≡◌, ap, ◌∙◌, true, false, List, [], ◌∷◌, ◌==◌, arith, eq_iff, eq_refl, Bool-cases, inl, inr,
}
use evidra_gitops.Base.Int.{ltb_ℤ, is_positive}
use evidra_gitops.Base.Dict.{Dict, lookup}
use evidra_gitops.Argo.{SourceEvent, AppCheckpoint}
use evidra_gitops.Argo.Checkpoint.{
  source_app_key, cursor_or_zero, cursor_of, history_cursor_should_process, update_history_cursor,
  EventKind, history, started, health, other_kind, kind, is_new, should_process, advanced,
  advance_checkpoint,
}
use evidra_gitops.Argo.Checkpoint.Skips.{
  advanced-history, cursor_of-advance_checkpoint, old-should_process,
}

-- The history of a cursor is at least as far as that of another.
pub record IsBehind (c c' : AppCheckpoint) : Type 0 where
  pub id_le : ltb_ℤ c'.last_history_id c.last_history_id ≡ false
  pub at_le : c.last_history_at ≤ c'.last_history_at

IsBehind-refl : (c : AppCheckpoint) → IsBehind c c
IsBehind-refl c = record { id_le = ground arith; at_le = omega arith }

IsBehind-update : (c : AppCheckpoint) (se : SourceEvent) → IsBehind c (update_history_cursor c se)
unfolding update_history_cursor
IsBehind-update c se = record { id_le = ground arith; at_le = ground arith }

-- No event takes a cursor's history back.
pub IsBehind-advanced :
    (k : EventKind) (se : SourceEvent) (c : AppCheckpoint) → IsBehind c (advanced k se c)
unfolding advanced
IsBehind-advanced history se c = IsBehind-update c se
IsBehind-advanced started se c = record { id_le = ground arith; at_le = ground arith }
IsBehind-advanced health se c = record { id_le = ground arith; at_le = ground arith }
IsBehind-advanced other_kind se c = IsBehind-refl c

-- An event with a history id that is old stays old as the cursor goes on.
stays_old :
    (se : SourceEvent) (c c' : AppCheckpoint)
    → is_positive se.history_id ≡ true
    → IsBehind c c'
    → is_new history se c ≡ false
    → is_new history se c' ≡ false
unfolding is_new history_cursor_should_process
stays_old se c c' numbered b old = ground arith

IsBehind-trans : (a b c : AppCheckpoint) → IsBehind a b → IsBehind b c → IsBehind a c
IsBehind-trans a b c h k = record { id_le = ground arith; at_le = omega arith }

same_cursor :
    (cursors : Dict AppCheckpoint) (other se : SourceEvent)
    → source_app_key other ≡ source_app_key se
    → cursor_of cursors other ≡ cursor_of cursors se
unfolding cursor_of
same_cursor cursors other se same = ap (λ k. cursor_or_zero (lookup k cursors)) same

-- Whatever event is collected, the cursor of an application's history does not go back.
cursor_of-IsBehind :
    (cursors : Dict AppCheckpoint) (se other : SourceEvent)
    → IsBehind (cursor_of cursors se) (cursor_of (advance_checkpoint cursors other) se)
cursor_of-IsBehind cursors se other =
    elim (Bool-cases (source_app_key other == source_app_key se)) [
      | inl same ↦ rw cursor_of-advance_checkpoint (
          rw same (
            subst (λ c. IsBehind c (advanced (kind other) other (cursor_of cursors other)))
              (same_cursor cursors other se ((eq_iff _ _).0 same))
              (IsBehind-advanced (kind other) other (cursor_of cursors other))))
      | inr apart ↦
          rw cursor_of-advance_checkpoint (rw apart (IsBehind-refl (cursor_of cursors se)))
    ]

-- The checkpoint after a list of events was collected.
unfoldable pub advance_all : Dict AppCheckpoint → List SourceEvent → Dict AppCheckpoint
advance_all cursors [] = cursors
advance_all cursors (se ∷ ses) = advance_all (advance_checkpoint cursors se) ses

cursor_of_all-IsBehind :
    (ses : List SourceEvent) (cursors : Dict AppCheckpoint) (se : SourceEvent)
    → IsBehind (cursor_of cursors se) (cursor_of (advance_all cursors ses) se)
unfolding advance_all
cursor_of_all-IsBehind [] cursors se = IsBehind-refl (cursor_of cursors se)
cursor_of_all-IsBehind (other ∷ ses) cursors se =
    IsBehind-trans (cursor_of cursors se) (cursor_of (advance_checkpoint cursors other) se) _
      (cursor_of-IsBehind cursors se other)
      (cursor_of_all-IsBehind ses (advance_checkpoint cursors other) se)

stays_skipped :
    (after : Dict AppCheckpoint) (se : SourceEvent) (ses : List SourceEvent)
    → kind se ≡ history
    → is_positive se.history_id ≡ true
    → is_new history se (cursor_of after se) ≡ false
    → should_process (advance_all after ses) se ≡ false
stays_skipped after se ses is_history numbered old = old-should_process (advance_all after ses) se (
    ap (λ k. is_new k se (cursor_of (advance_all after ses) se)) is_history
    ∙ stays_old se (cursor_of after se) (cursor_of (advance_all after ses) se) numbered
        (cursor_of_all-IsBehind ses after se) old)

-- What an event with a history id is to the cursors once it was collected, and ever after.
pub old-advance_all :
    (cursors : Dict AppCheckpoint) (se : SourceEvent) (ses : List SourceEvent)
    → kind se ≡ history
    → is_positive se.history_id ≡ true
    → is_new history se (cursor_of (advance_all (advance_checkpoint cursors se) ses) se) ≡ false
old-advance_all cursors se ses is_history numbered =
    stays_old se (cursor_of (advance_checkpoint cursors se) se)
      (cursor_of (advance_all (advance_checkpoint cursors se) ses) se) numbered
      (cursor_of_all-IsBehind ses (advance_checkpoint cursors se) se)
      (ap (is_new history se) (cursor_of-advance_checkpoint cursors se se ∙ rw eq_refl)
        ∙ ap (λ k. is_new history se (advanced k se (cursor_of cursors se))) is_history
        ∙ advanced-history se (cursor_of cursors se))

-- An event of a deployment or a finished sync that has a history id and was collected is never
-- processed again, whatever is collected after it.
pub should_process-advance_all :
    (cursors : Dict AppCheckpoint) (se : SourceEvent) (ses : List SourceEvent)
    → kind se ≡ history
    → is_positive se.history_id ≡ true
    → should_process (advance_all (advance_checkpoint cursors se) ses) se ≡ false
should_process-advance_all cursors se ses is_history numbered =
    old-should_process (advance_all (advance_checkpoint cursors se) ses) se (
      ap (λ k. is_new k se (cursor_of (advance_all (advance_checkpoint cursors se) ses) se))
        is_history
      ∙ old-advance_all cursors se ses is_history numbered)

passed_over :
    (se later : SourceEvent) (c : AppCheckpoint)
    → is_positive se.history_id ≡ true
    → ltb_ℤ se.history_id later.history_id ≡ true
    → is_new history se (advanced history later c) ≡ false
unfolding is_new advanced history_cursor_should_process update_history_cursor
passed_over se later c numbered further = ground arith

-- An event with a history id is also passed over for good, uncollected, once a later one of its
-- application is collected.
pub should_process-later :
    (cursors : Dict AppCheckpoint) (se later : SourceEvent) (ses : List SourceEvent)
    → kind se ≡ history
    → kind later ≡ history
    → source_app_key later ≡ source_app_key se
    → is_positive se.history_id ≡ true
    → ltb_ℤ se.history_id later.history_id ≡ true
    → should_process (advance_all (advance_checkpoint cursors later) ses) se ≡ false
should_process-later cursors se later ses is_history later_history same numbered further =
    stays_skipped (advance_checkpoint cursors later) se ses is_history numbered (
      ap (is_new history se) (cursor_of-advance_checkpoint cursors se later ∙ rw (same, eq_refl))
      ∙ ap (λ k. is_new history se (advanced k later (cursor_of cursors later))) later_history
      ∙ passed_over se later (cursor_of cursors later) numbered further)
