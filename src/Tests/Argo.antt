-- ===== src/Tests/Argo.antt =====
-- The collector of internal/ingest/argo at a concrete application.
use Prim.Native.Char.{code}
use Prim.Native.String.{[], ◌∷◌}
use mathlib.Core.Option.{some-injective}
use evidra_gitops.Base.{
  ℕ, zero, suc, eqb, eq_iff, ap, sym, ◌∙◌, trim_space, if◌then◌else◌, String, ◌<>◌, ◌≡◌, refl, true,
  false, Option, none, some, List, [], ◌∷◌, arith,
}
use evidra_gitops.Base.Dict.{Dict, lookup}
use evidra_gitops.Base.Int.{ℤ, pos, negsuc}
use evidra_gitops.Value.{Value, object, array, text, int64, item, end, field, done}
use evidra_gitops.Result.{Result, ok, err, other}
use evidra_gitops.Store.{MemoryRepository, new_memory_repository}
use evidra_gitops.App.Memory.{memory_repository}
use evidra_gitops.Argo.{SourceEvent, AppCheckpoint}
use evidra_gitops.Argo.Checkpoint.{should_process, kind_of, source_app_key}
use evidra_gitops.Argo.Checkpoint.Restart.{
  Files, IsFaithful, IsSameDict, file_checkpoint_store, save_file, save_in, write_encoded,
  load_checkpoint-save_file,
}
use evidra_gitops.Argo.Normalize.{normalize_source_event, event_of, is_complete}
use evidra_gitops.Event.Platform.{EncodesObjects}
use evidra_gitops.Store.{is_valid_event}
use evidra_gitops.Argo.Normalize.Validity.{is_valid_event-normalize_source_event}
use evidra_gitops.Argo.Collector.{
  Collector, CollectorState, skipped, collected, collect, polls, load_checkpoint,
}
use evidra_gitops.Argo.Collector.Cursors.{collect_once}
use evidra_gitops.Argo.Collector.Losing.{collect_passes_over}
use evidra_gitops.Argo.Collector.Storing.{normalizing, IsCollected, collect-IsCollected}
use evidra_gitops.Argo.Collector.Object.{
  AppObject, Deployment, handle_app_event, read_deployment, source_event_of, map_at,
}
use evidra_gitops.Argo.Collector.Object.Resync.{handle_app_event_once}
use evidra_gitops.Tests.Standard.{
  standard, tally, count, count-tally, joined, parted, parted-joined,
}

abbrev synced : SourceEvent
synced = record {
  id = "s1";
  app_uid = "";
  app = "shop";
  cluster = "eu-1";
  namespace = "prod";
  revision = "abc";
  occurred = 5;
  actor = "";
  event_type = "argo.sync.finished";
  result = "Succeeded";
  health_status = "";
  history_id = pos 3;
  operation_key = "";
  payload = none;
}

abbrev next_synced : SourceEvent
next_synced = record synced { id = "s2"; history_id = pos 4; occurred = 7 }

abbrev collector : Collector MemoryRepository (Option String)
collector = record {
  target = some (normalizing standard "prod", memory_repository standard);
  checkpoint = none;
}

abbrev idle : CollectorState MemoryRepository (Option String)
idle = record {
  app_cursors = [];
  checkpoint_loaded = true;
  repo = new_memory_repository;
  disk = none;
}

abbrev rounds : List ((ℕ → ℕ) × Result (List SourceEvent))
rounds = ((λ n. n), err (other "offline")) ∷ ((λ n. n), ok (next_synced ∷ [])) ∷ []

collected_first : (collect collector 9 synced idle).0 ≡ collected
unfolding collect should_process evidra_gitops.Base.trim_space evidra_gitops.Argo.Checkpoint.is_new
    evidra_gitops.Argo.Checkpoint.kind_of
    evidra_gitops.Argo.Checkpoint.history_cursor_should_process
    evidra_gitops.Argo.Checkpoint.cursor_of evidra_gitops.Argo.Checkpoint.cursor_or_zero lookup
    evidra_gitops.Argo.Collector.normalize_and_ingest normalizing normalize_source_event
    evidra_gitops.Argo.Normalize.is_complete evidra_gitops.Argo.Collector.ingest_normalized
    memory_repository evidra_gitops.Store.ingest_event evidra_gitops.Store.is_valid_event
    evidra_gitops.Argo.Normalize.event_of evidra_gitops.Argo.Normalize.event_type_of
    evidra_gitops.Event.Hash.compute_integrity_hash evidra_gitops.Store.hashed
    evidra_gitops.Store.store_event evidra_gitops.Tests.Standard.empty_canonical
collected_first = refl

collect_once_example :
    collect collector 30 synced (polls collector rounds (collect collector 9 synced idle).1)
    ≡ (skipped, polls collector rounds (collect collector 9 synced idle).1)
collect_once_example =
    collect_once collector 9 30 synced idle rounds (unfold kind_of trim_space in refl) refl
      collected_first

collect_passes_over_example :
    collect collector 30
      (record synced { history_id = pos 2 })
      (polls collector rounds (collect collector 9 synced idle).1)
    ≡ (skipped, polls collector rounds (collect collector 9 synced idle).1)
collect_passes_over_example =
    collect_passes_over collector 9 30 (record synced { history_id = pos 2 }) synced idle rounds
      (unfold kind_of trim_space in refl) (unfold kind_of trim_space in refl)
      (unfold source_app_key trim_space in refl) refl refl collected_first

collect-IsCollected_example :
    IsCollected standard "prod" synced (collect collector 9 synced idle).1.repo
collect-IsCollected_example =
    collect-IsCollected standard "prod" collector 9 synced idle refl collected_first

abbrev application : AppObject
application = record {
  name = "shop";
  uid = "u1";
  namespace = "argocd";
  content =
      (
        "status",
        object (
            field "history"
              (array (
                item (object (field "id" (int64 (pos 3)) (field "deployedAt" (text "111") done)))
                  end))
              done),
      )
      ∷ [];
}

abbrev deployment : Deployment
deployment = record { id = pos 3; revision = ""; deployed = 3 }

deployment_read : read_deployment standard application.content ≡ some deployment
unfolding read_deployment map_at lookup evidra_gitops.Argo.Collector.Object.as_map
    evidra_gitops.Argo.Collector.Object.slice_at evidra_gitops.Value.entries
    evidra_gitops.Argo.Collector.Object.as_slice evidra_gitops.Argo.Collector.Object.last_deployment
    evidra_gitops.Value.elements evidra_gitops.Argo.Collector.Object.deployment_of
    evidra_gitops.Argo.Collector.Object.history_id_of evidra_gitops.Argo.Collector.Object.string_at
    evidra_gitops.Argo.Collector.Object.time_of evidra_gitops.Argo.Collector.Object.as_string count
deployment_read = refl

abbrev after : CollectorState MemoryRepository (Option String)
after = (collect collector 12 (source_event_of standard 10 11 application deployment) idle).1

application_collected :
    handle_app_event collector standard 10 11 12 application idle ≡ some (collected, after)
unfolding handle_app_event read_deployment map_at lookup evidra_gitops.Argo.Collector.Object.as_map
    evidra_gitops.Argo.Collector.Object.slice_at evidra_gitops.Value.entries
    evidra_gitops.Argo.Collector.Object.as_slice evidra_gitops.Argo.Collector.Object.last_deployment
    evidra_gitops.Value.elements evidra_gitops.Argo.Collector.Object.saved_if_collected collect
    should_process trim_space source_event_of tally evidra_gitops.Argo.Checkpoint.is_new
    evidra_gitops.Argo.Checkpoint.cursor_of evidra_gitops.Argo.Checkpoint.cursor_or_zero
    evidra_gitops.Argo.Checkpoint.history_cursor_should_process kind_of
    evidra_gitops.Argo.Collector.Object.as_string evidra_gitops.Argo.Collector.Object.deployment_of
    evidra_gitops.Argo.Collector.Object.history_id_of
    evidra_gitops.Argo.Collector.Object.occurred_of evidra_gitops.Argo.Collector.Object.string_at
    evidra_gitops.Argo.Collector.Object.time_of evidra_gitops.Argo.Collector.ingest_normalized
    evidra_gitops.Argo.Collector.normalize_and_ingest evidra_gitops.Argo.Collector.save_checkpoint
    is_complete count memory_repository evidra_gitops.Store.ingest_event is_valid_event event_of
    evidra_gitops.Argo.Normalize.event_type_of evidra_gitops.Store.hashed
    evidra_gitops.Event.Hash.compute_integrity_hash evidra_gitops.Tests.Standard.empty_canonical
    evidra_gitops.Store.store_event normalizing normalize_source_event
application_collected = refl

handle_app_event_once_example :
    handle_app_event collector standard 20 21 22 application (polls collector rounds after)
    ≡ some (skipped, polls collector rounds after)
handle_app_event_once_example =
    handle_app_event_once collector standard 10 11 12 20 21 22 application deployment idle after
      rounds deployment_read refl refl application_collected

pub standard-EncodesObjects : EncodesObjects standard
standard-EncodesObjects = record {
  object-ne = λ m s h e. absurd (ground (arith, eq_iff "{}" "", some-injective "{}" s h ∙ e));
  object-ne-null =
      λ m s h e. absurd (ground (arith, eq_iff "{}" "null", some-injective "{}" s h ∙ e));
}

is_valid_event-normalize_source_event_example : is_valid_event (event_of synced "prod" "{}") ≡ true
is_valid_event-normalize_source_event_example =
    is_valid_event-normalize_source_event standard synced "prod" (event_of synced "prod" "{}")
      standard-EncodesObjects (unfold normalize_source_event is_complete trim_space in refl)

unfoldable signed_text : ℤ → String
signed_text (pos n) = "0" ∷ tally n
signed_text (negsuc n) = "1" ∷ tally n

unfoldable signed_of : String → ℤ
signed_of [] = pos 0
signed_of (c ∷ s) = if eqb (code c) b'0' then pos (count s) else negsuc (count s)

signed_of-signed_text : (n : ℤ) → signed_of (signed_text n) ≡ n
unfolding signed_of signed_text
signed_of-signed_text (pos n) = ap pos (count-tally n)
signed_of-signed_text (negsuc n) = ap negsuc (count-tally n)

-- A checkpoint of one application as a text.
unfoldable cursor_text : String → AppCheckpoint → String
cursor_text key c = joined key (
    joined (signed_text c.last_history_id) (
      joined (tally c.last_history_at)
        (joined c.last_start_key (joined c.last_terminal_key c.last_health))))

unfoldable parts_of : ℕ → String → List String
parts_of zero s = s ∷ []
parts_of (suc n) s = elim (parted s) [ none ↦ [] | some (a, b) ↦ a ∷ parts_of n b ]

unfoldable cursor_of_parts : List String → Result (Dict AppCheckpoint)
cursor_of_parts (key ∷ id ∷ at ∷ start ∷ terminal ∷ health ∷ rest) = ok (
    (
      key,
      record {
        last_history_id = signed_of id;
        last_history_at = count at;
        last_start_key = start;
        last_terminal_key = terminal;
        last_health = health;
      },
    )
    ∷ [])
cursor_of_parts _ = err (other "unexpected end of JSON input")

unfoldable one_cursor : Dict AppCheckpoint → Result String
one_cursor ((key, c) ∷ []) = ok (cursor_text key c)
one_cursor _ = err (other "several applications")

-- Checkpoints of one application are written and read; the disk is the file.
abbrev one_file : Files (Option String)
one_file = record {
  read_file = λ path disk. ok disk;
  make_dir = λ path disk. (ok tt, disk);
  write_file = λ path content disk. (ok tt, some content);
  marshal = λ cursors. one_cursor cursors;
  unmarshal = λ content. cursor_of_parts (parts_of 5 content);
}

parts-cursor_text :
    (key : String) (c : AppCheckpoint)
    → cursor_of_parts (parts_of 5 (cursor_text key c)) ≡ ok ((key, c) ∷ [])
unfolding cursor_of_parts parts_of cursor_text
parts-cursor_text key c =
    rw (parted-joined, parts_of)
      (rw (parted-joined, parts_of)
        (rw (parted-joined, parts_of)
          (rw (parted-joined, parts_of)
            (rw (parted-joined, parts_of) (rw (signed_of-signed_text, count-tally) refl)))))

ok_inj : {a b : String} → ok a ≡ ok b → a ≡ b
ok_inj {a = a} h = ap (λ r. elim r [ ok x ↦ x | err e ↦ a ]) h

read_back :
    (cursors : Dict AppCheckpoint) (content : String)
    → one_cursor cursors ≡ ok content
    → (back : Dict AppCheckpoint) × (cursor_of_parts (parts_of 5 content) ≡ ok back)
      × IsSameDict cursors back
unfolding one_cursor
read_back [] content h = absurd (ground arith)
read_back ((key, c) ∷ []) content h = (
  (key, c) ∷ [],
  ap (λ t. cursor_of_parts (parts_of 5 t)) (sym (ok_inj h)) ∙ parts-cursor_text key c,
  λ k. refl,
)
read_back (one ∷ two ∷ cursors) content h = absurd (ground arith)

one_file-IsFaithful : IsFaithful one_file
one_file-IsFaithful = record {
  read_file-write_file = λ path content disk d written.
      sym (ap (λ (r : Result (Unit {0}) × Option String). ok r.1) written);
  unmarshal-marshal = read_back;
}

abbrev shop_cursor : AppCheckpoint
shop_cursor = record {
  last_history_id = pos 3;
  last_history_at = 5;
  last_start_key = "";
  last_terminal_key = "";
  last_health = "";
}

abbrev shop_cursors : Dict AppCheckpoint
shop_cursors = ("shop", shop_cursor) ∷ []

abbrev restarting : Collector MemoryRepository (Option String)
restarting = record { target = none; checkpoint = some (file_checkpoint_store one_file "cp.json") }

abbrev restarted : CollectorState MemoryRepository (Option String)
restarted = record {
  app_cursors = [];
  checkpoint_loaded = false;
  repo = new_memory_repository;
  disk = some (cursor_text "shop" shop_cursor);
}

load_checkpoint-save_file_example :
    should_process (load_checkpoint restarting restarted).app_cursors synced
    ≡ should_process shop_cursors synced
load_checkpoint-save_file_example =
    load_checkpoint-save_file one_file "cp.json" restarting shop_cursors none restarted synced
      one_file-IsFaithful refl (unfold save_file save_in write_encoded one_cursor in refl) refl
