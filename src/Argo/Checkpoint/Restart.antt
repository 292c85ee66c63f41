-- ===== src/Argo/Checkpoint/Restart.antt =====
-- FileCheckpointStore of internal/ingest/argo/checkpoint.go: the file of a checkpoint, and a collector
-- that is started again with it.
use evidra_gitops.Base.{String, ◌≡◌, refl, ap, ◌∙◌, Option, none, some, [], false, arith}
use evidra_gitops.Base.Dict.{Dict, lookup}
use evidra_gitops.Result.{Result, ok, err}
use evidra_gitops.Argo.{SourceEvent, AppCheckpoint}
use evidra_gitops.Argo.Checkpoint.{should_process, cursor_of, source_app_key}
use evidra_gitops.Argo.Collector.{CheckpointStore, Collector, CollectorState, load_checkpoint}

-- What the operating system and encoding/json do for the store, over the state of a disk.
pub record Files (D : Type 0) : Type 0 where
  -- `os.ReadFile`, where `ok none` is `os.ErrNotExist`; `os.MkdirAll` of the directory of a path;
  -- `os.WriteFile`
  pub read_file : String → D → Result (Option String)
  pub make_dir : String → D → Result (Unit {0}) × D
  pub write_file : String → String → D → Result (Unit {0}) × D
  -- `json.MarshalIndent` and `json.Unmarshal` of a Checkpoint
  pub marshal : Dict AppCheckpoint → Result String
  pub unmarshal : String → Result (Dict AppCheckpoint)

module _ {D : Type 0} (files : Files D) (path : String) where
  -- Load. Times are in UTC already.
  unfoldable pub load_file : D → Result (Dict AppCheckpoint)
  load_file disk = elim (files.read_file path disk) [
    | err failure ↦ err failure
    | ok none ↦ ok []
    | ok (some content) ↦ files.unmarshal content
  ]

  unfoldable pub write_encoded : D → Result String → Result (Unit {0}) × D
  write_encoded disk (err failure) = (err failure, disk)
  write_encoded disk (ok content) = files.write_file path content disk

  unfoldable pub save_in : Dict AppCheckpoint → Result (Unit {0}) × D → Result (Unit {0}) × D
  save_in cursors (err failure, disk) = (err failure, disk)
  save_in cursors (ok _, disk) = write_encoded disk (files.marshal cursors)

  -- Save
  unfoldable pub save_file : Dict AppCheckpoint → D → Result (Unit {0}) × D
  save_file cursors disk = save_in cursors (files.make_dir path disk)

  unfoldable pub file_checkpoint_store : CheckpointStore D
  file_checkpoint_store = record { load = load_file; save = save_file }

-- Two maps with the same entries; an encoder of maps sorts the keys.
abbrev pub IsSameDict : Dict AppCheckpoint → Dict AppCheckpoint → Type 0
IsSameDict m m' = (key : String) → lookup key m' ≡ lookup key m

-- A file that was written is read back, and a checkpoint that was encoded is decoded.
pub record IsFaithful {D : Type 0} (files : Files D) : Type 0 where
  pub read_file-write_file :
      (path content : String) (disk after : D)
      → files.write_file path content disk ≡ (ok tt, after)
      → files.read_file path after ≡ ok (some content)
  pub unmarshal-marshal :
      (cursors : Dict AppCheckpoint) (content : String)
      → files.marshal cursors ≡ ok content
      → (back : Dict AppCheckpoint) × (files.unmarshal content ≡ ok back) × IsSameDict cursors back

module _ {D : Type 0} (files : Files D) (path : String) where
  encoded :
      (disk after : D) (r : Result String)
      → write_encoded files path disk r ≡ (ok tt, after)
      → (content : String) × (r ≡ ok content)
        × (files.write_file path content disk ≡ (ok tt, after))
  unfolding write_encoded
  encoded disk after (err failure) h =
      absurd (ground (arith, ap (λ (r : Result (Unit {0}) × D). r.0) h))
  encoded disk after (ok content) h = (content, refl, h)

  written_in :
      (cursors : Dict AppCheckpoint) (made : Result (Unit {0}) × D) (after : D)
      → save_in files path cursors made ≡ (ok tt, after)
      → (content : String) × (files.marshal cursors ≡ ok content)
        × (files.write_file path content made.1 ≡ (ok tt, after))
  unfolding save_in
  written_in cursors (err failure, disk) after h =
      absurd (ground (arith, ap (λ (r : Result (Unit {0}) × D). r.0) h))
  written_in cursors (ok _, disk) after h = encoded disk after (files.marshal cursors) h

  load_file-read :
      (disk : D) (content : String)
      → files.read_file path disk ≡ ok (some content)
      → load_file files path disk ≡ files.unmarshal content
  unfolding load_file
  load_file-read disk content found = rw (found, load_file)

  -- A checkpoint that was saved without an error is loaded, with the same cursor of each application.
  pub load_file-save_file :
      (cursors : Dict AppCheckpoint) (disk after : D)
      → IsFaithful files
      → save_file files path cursors disk ≡ (ok tt, after)
      → (back : Dict AppCheckpoint) × (load_file files path after ≡ ok back)
        × IsSameDict cursors back
  unfolding save_file
  load_file-save_file cursors disk after faithful saved =
      let made = files.make_dir path disk in
      let (content, encoded_as, write) = written_in cursors made after saved in
      let (back, decoded, same) = faithful.unmarshal-marshal cursors content encoded_as in
      (
        back,
        load_file-read after content (faithful.read_file-write_file path content made.1 after write)
            ∙ decoded,
        same,
      )

  same_judgement :
      (m m' : Dict AppCheckpoint) (se : SourceEvent)
      → IsSameDict m m'
      → should_process m' se ≡ should_process m se
  unfolding should_process cursor_of
  same_judgement m m' se same = rw (same (source_app_key se)) refl

  cursors_loaded :
      {R : Type 0} (c : Collector R D) (s : CollectorState R D) (back : Dict AppCheckpoint)
      → c.checkpoint ≡ some (file_checkpoint_store files path)
      → s.checkpoint_loaded ≡ false
      → load_file files path s.disk ≡ ok back
      → (load_checkpoint c s).app_cursors ≡ back
  unfolding load_checkpoint file_checkpoint_store
  cursors_loaded c s back configured fresh loaded =
      rw (fresh, load_checkpoint) (rw (configured, load_checkpoint) (rw (loaded, load_checkpoint)))

  -- A collector that is started on the file that another saved without an error takes for new exactly
  -- the events that the other would have taken for new.
  pub load_checkpoint-save_file :
      {R : Type 0} (c : Collector R D) (cursors : Dict AppCheckpoint) (disk : D)
      (s : CollectorState R D) (se : SourceEvent)
      → IsFaithful files
      → c.checkpoint ≡ some (file_checkpoint_store files path)
      → save_file files path cursors disk ≡ (ok tt, s.disk)
      → s.checkpoint_loaded ≡ false
      → should_process (load_checkpoint c s).app_cursors se ≡ should_process cursors se
  load_checkpoint-save_file c cursors disk s se faithful configured saved fresh =
      let (back, loaded, same) = load_file-save_file cursors disk s.disk faithful saved in
      ap (λ m. should_process m se) (cursors_loaded c s back configured fresh loaded)
      ∙ same_judgement cursors back se same
