-- ===== src/Export.antt =====
-- internal/export/fs.go: the FilesystemExporter, over the state of a disk. Spans and metrics are left
-- out; `now` and `later` are the two readings of the clock.
pub mod Orders
pub mod Results
use evidra_gitops.Base.{
  ℕ, String, ◌<>◌, Bool, true, false, not, ◌&&◌, ◌||◌, Option, none, some, List, [], ◌∷◌, ◌==◌, eqb,
  ltb, str_ltb, length, if◌then◌else◌, trim_space, to_lower, contains,
}
use evidra_gitops.Base.Dict.{Dict, lookup}
use evidra_gitops.Base.Sort.{sort_by}
use evidra_gitops.Result.{Result, ok, err}
use evidra_gitops.Value.{Value, bool}
use evidra_gitops.Event.{StoredEvent, extension_string}
use evidra_gitops.Event.Platform.{Platform}
use evidra_gitops.Argo.Collector.Object.{string_at}

-- exportChangeView; PostDeployDegradation is a map to Booleans.
pub record ExportChangeView : Type 0 where
  pub change_id : String
  pub application : String
  pub cluster : String
  pub namespace : String
  pub revision : String
  pub initiator : String
  pub result : String
  pub external_change_id : String
  pub ticket_id : String
  pub post_deploy_degradation : Dict Bool

-- What CreateEvidencePack writes: the view stands for the fields that it copies.
pub record EvidencePack : Type 0 where
  pub view : ExportChangeView
  pub generated_at : ℕ
  pub timeline : List StoredEvent
  pub created_at : ℕ
  pub count : ℕ
  pub checksum : String
  pub deterministic : String
  pub items : List StoredEvent

-- What the exporter takes from libraries: encoding/json, crypto/sha256 and the files.
pub record ExportLibraries (D : Type 0) : Type 0 where
  pub marshal_events : List StoredEvent → Result String
  pub marshal_canonical : ExportChangeView → List StoredEvent → Result String
  pub marshal_pack : EvidencePack → Result String
  pub join : String → String → String
  pub make_dir : String → D → Result (Unit {0}) × D
  pub write_file : String → String → D → Result (Unit {0}) × D
  pub read_file : String → D → Result String

-- The `less` of sortedEvents, and sortedEvents.
unfoldable pub exported_before : StoredEvent → StoredEvent → Bool
exported_before a b = if eqb a.time b.time then str_ltb a.id b.id else ltb a.time b.time

unfoldable pub sorted_events : List StoredEvent → List StoredEvent
sorted_events events = sort_by exported_before events

-- The first key of a map with a text that is not blank.
unfoldable pub first_text : Dict Value → List String → String
first_text m [] = ""
first_text m (k ∷ ks) =
    let rest = first_text m ks in
    elim (string_at k m) [
      | none ↦ rest
      | some s ↦ if trim_space s == "" then rest else trim_space s
    ]

-- dataStringField
unfoldable pub data_string_field : Platform → String → List String → String
data_string_field p payload keys =
    if payload == ""
    then ""
    else elim (p.unmarshal_object payload) [ none ↦ "" | some m ↦ first_text m keys ]

-- `for _, k := range keys`: the first extension that is not blank
unfoldable pub first_of_keys : Dict Value → List String → String
first_of_keys extensions [] = ""
first_of_keys extensions (k ∷ ks) =
    let rest = first_of_keys extensions ks in
    if trim_space (extension_string extensions k) == ""
    then rest
    else trim_space (extension_string extensions k)

abbrev pub or_keys : String → Dict Value → List String → String
or_keys s extensions keys = if s == "" then first_of_keys extensions keys else s

-- The text of type and status in which words are looked for.
unfoldable pub bucket_of : Platform → StoredEvent → String
bucket_of p e = to_lower (
    e.type <> " " <> data_string_field p e.payload ("status" ∷ "phase" ∷ "result" ∷ "outcome" ∷ []))

unfoldable pub is_failing : Platform → StoredEvent → Bool
is_failing p e =
    let bucket = bucket_of p e in
    contains bucket "fail"
    || contains bucket "error"
    || contains bucket "degrad"
    || contains bucket "abort"

unfoldable pub is_succeeding : Platform → StoredEvent → Bool
is_succeeding p e =
    let bucket = bucket_of p e in
    contains bucket "success" || contains bucket "succeed" || contains bucket "complete"

-- The result after an event.
unfoldable pub next_result : Platform → String → StoredEvent → String
next_result p result e =
    if is_failing p e
    then "failed"
    else if not (result == "failed") && is_succeeding p e
    then "succeeded"
    else result

-- The body of the loop of derivePrimaryChange.
unfoldable pub view_step : Platform → ExportChangeView → StoredEvent → ExportChangeView
view_step p out e = record out {
  change_id = or_keys out.change_id e.extensions ("change_id" ∷ []);
  revision = or_keys out.revision e.extensions ("sync_revision" ∷ "revision" ∷ "commit_sha" ∷ []);
  initiator = or_keys out.initiator e.extensions ("initiator" ∷ []);
  external_change_id =
      or_keys out.external_change_id e.extensions ("external_change_id" ∷ "change_id" ∷ []);
  ticket_id = or_keys out.ticket_id e.extensions ("ticket_id" ∷ "ticket_key_primary" ∷ []);
  result = next_result p out.result e;
}

unfoldable pub view_loop : Platform → ExportChangeView → List StoredEvent → ExportChangeView
view_loop p out [] = out
view_loop p out (e ∷ es) = view_loop p (view_step p out e) es

-- What the loop starts with, from the first event.
unfoldable pub view_start : StoredEvent → ExportChangeView
view_start first = record {
  change_id = "";
  application = first.subject;
  cluster = extension_string first.extensions "cluster";
  namespace = extension_string first.extensions "namespace";
  revision = "";
  initiator = "";
  result = "unknown";
  external_change_id = "";
  ticket_id = "";
  post_deploy_degradation = ("observed", false) ∷ [];
}

-- A view without a change id gets one from the hash of its scope.
unfoldable pub with_change_id : Platform → ExportChangeView → ExportChangeView
with_change_id p out = record out {
  change_id =
      if out.change_id == ""
      then "chg_"
        <> p.sha256_hex
            (out.application <> ":" <> out.cluster <> ":" <> out.namespace <> ":" <> out.revision)
      else out.change_id;
}

abbrev pub no_view : ExportChangeView
no_view = record {
  change_id = "";
  application = "";
  cluster = "";
  namespace = "";
  revision = "";
  initiator = "";
  result = "";
  external_change_id = "";
  ticket_id = "";
  post_deploy_degradation = [];
}

-- derivePrimaryChange
unfoldable pub derive_primary_change : Platform → List StoredEvent → ExportChangeView
derive_primary_change p [] = no_view
derive_primary_change p (first ∷ events) =
    with_change_id p (view_loop p (view_start first) (first ∷ events))

module _ {D : Type 0} (p : Platform) (l : ExportLibraries D) where
  -- The pack, once the events and the canonical form are encoded.
  unfoldable pub pack_of : ℕ → ℕ → List StoredEvent → String → String → EvidencePack
  pack_of now later events items_json canonical_json = record {
    view = derive_primary_change p events;
    generated_at = now;
    timeline = events;
    created_at = later;
    count = length events;
    checksum = p.sha256_hex items_json;
    deterministic = p.sha256_hex canonical_json;
    items = events;
  }

  -- The pack of sorted events.
  unfoldable pub evidence_pack : ℕ → ℕ → List StoredEvent → Result EvidencePack
  evidence_pack now later events = elim (l.marshal_events events) [
    | err failure ↦ err failure
    | ok items_json ↦ elim (l.marshal_canonical (derive_primary_change p events) events) [
      | err failure ↦ err failure
      | ok canonical_json ↦ ok (pack_of now later events items_json canonical_json)
    ]
  ]

  unfoldable pub written : String → Result (Unit {0}) × D → Result String × D
  written path (err failure, disk) = (err failure, disk)
  written path (ok _, disk) = (ok path, disk)

  unfoldable pub write_encoded : String → Result String → D → Result String × D
  write_encoded path (err failure) disk = (err failure, disk)
  write_encoded path (ok content) disk = written path (l.write_file path content disk)

  unfoldable pub write_pack : String → Result EvidencePack → D → Result String × D
  write_pack path (err failure) disk = (err failure, disk)
  write_pack path (ok pack) disk = write_encoded path (l.marshal_pack pack) disk

  unfoldable pub pack_in :
      String → String → ℕ → ℕ → List StoredEvent → Result (Unit {0}) × D → Result String × D
  pack_in base_dir job_id now later events (err failure, disk) = (err failure, disk)
  pack_in base_dir job_id now later events (ok _, disk) =
      write_pack (l.join base_dir (job_id <> ".json"))
        (evidence_pack now later (sorted_events events)) disk

  -- CreateEvidencePack
  unfoldable pub create_evidence_pack :
      String → String → ℕ → ℕ → List StoredEvent → D → Result String × D
  create_evidence_pack base_dir job_id now later events disk =
      pack_in base_dir job_id now later events (l.make_dir base_dir disk)

  -- ReadArtifact
  unfoldable pub read_artifact : String → D → Result String
  read_artifact path disk = l.read_file path disk
