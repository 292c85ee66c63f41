-- ===== src/Argo/Normalize.antt =====
-- NormalizeSourceEvent and payloadAnnotations of internal/ingest/argo/normalize.go.
pub mod Validity
use evidra_gitops.Base.{
  ℕ, String, ◌<>◌, Bool, true, false, ◌&&◌, ◌||◌, Option, none, some, List, [], ◌∷◌, ◌==◌,
  if◌then◌else◌, trim_space,
}
use evidra_gitops.Base.Int.{ℤ, is_positive}
use evidra_gitops.Base.Dict.{Dict, lookup, insert}
use evidra_gitops.Value.{
  Value, Items, Fields, end, item, done, field, nil, bool, float64, int, int64, text, array, object,
  strings, string_map, entries,
}
use evidra_gitops.Result.{Result, ok, err, other}
use evidra_gitops.Event.{StoredEvent, is_zero_time}
use evidra_gitops.Event.Platform.{Platform}
use evidra_gitops.Argo.{SourceEvent}

-- A text without its outer white space, or a default where nothing is left.
abbrev pub trimmed_or : String → String → String
trimmed_or s default = if trim_space s == "" then default else trim_space s

-- `if v := strings.TrimSpace(raw); v != "" { m[key] = v }`
abbrev pub set_text : String → String → Dict Value → Dict Value
set_text key raw m = if trim_space raw == "" then m else insert key (text (trim_space raw)) m

-- A map as a value, and a list of maps.
unfoldable pub fields_of : Dict Value → Fields
fields_of [] = done
fields_of ((k, v) ∷ m) = field k v (fields_of m)

unfoldable pub items_of : List (Dict Value) → Items
items_of [] = end
items_of (m ∷ ms) = item (object (fields_of m)) (items_of ms)

trimmed_texts : Dict String → Dict String
trimmed_texts [] = []
trimmed_texts ((k, v) ∷ m) = (k, trim_space v) ∷ trimmed_texts m

trimmed_value : String → Value → Dict String → Dict String
trimmed_value k (text s) m = (k, trim_space s) ∷ m
trimmed_value k nil m = m
trimmed_value k (bool b) m = m
trimmed_value k (float64 n) m = m
trimmed_value k (int n) m = m
trimmed_value k (int64 n) m = m
trimmed_value k (array vs) m = m
trimmed_value k (object fs) m = m
trimmed_value k (strings ss) m = m
trimmed_value k (string_map d) m = m

trimmed_values : Dict Value → Dict String
unfolding trimmed_value
trimmed_values [] = []
trimmed_values ((k, v) ∷ m) = trimmed_value k v (trimmed_values m)

-- The `switch` of payloadAnnotations; a value of another type has no annotations.
unfoldable pub annotations_of_value : Value → Dict String
unfolding trimmed_texts trimmed_values entries
annotations_of_value (string_map m) = trimmed_texts m
annotations_of_value (object fs) = trimmed_values (entries fs)
annotations_of_value nil = []
annotations_of_value (bool b) = []
annotations_of_value (float64 n) = []
annotations_of_value (int n) = []
annotations_of_value (int64 n) = []
annotations_of_value (text s) = []
annotations_of_value (array vs) = []
annotations_of_value (strings ss) = []

-- payloadAnnotations: without annotations, an empty map, from which nothing is read.
unfoldable pub payload_annotations : Dict Value → Dict String
payload_annotations payload = elim (lookup "annotations" payload) [
  | none ↦ []
  | some raw ↦ annotations_of_value raw
]

unfoldable pub text_or_empty : Option String → String
text_or_empty none = ""
text_or_empty (some s) = s

unfoldable pub event_type_of : SourceEvent → String
event_type_of se = trimmed_or se.event_type "argo.sync.finished"

unfoldable pub environment_of : SourceEvent → String → String
environment_of se default_env = trimmed_or se.namespace (trimmed_or default_env "unknown")

abbrev pub set_history_id : ℤ → Dict Value → Dict Value
set_history_id n m = if is_positive n then insert "history_id" (int64 n) m else m

-- The extensions that do not depend on the payload.
unfoldable pub own_extensions : SourceEvent → String → Dict Value
unfolding environment_of event_type_of
own_extensions se default_env = set_text "health_status" se.health_status (
    set_text "operation_id" se.operation_key (
      set_history_id se.history_id (
        set_text "argo_result" se.result (
          set_text "commit_sha" se.revision (
            ("cluster", text (trimmed_or se.cluster "unknown"))
            ∷ ("namespace", text (environment_of se default_env))
            ∷ ("initiator", text (trimmed_or se.actor "argocd"))
            ∷ ("sync_revision", text (trim_space se.revision))
            ∷ ("argo_event_type", text (event_type_of se))
            ∷ [])))))

-- What the annotations add to the extensions.
unfoldable pub with_annotations : Dict String → Dict Value → Dict Value
with_annotations annotations m =
    set_text "approvals_json" (text_or_empty (lookup "evidra.rest/approvals-json" annotations)) (
      set_text "approval_reference" (text_or_empty (lookup "evidra.rest/approvals-ref" annotations))
        (set_text "ticket_id" (text_or_empty (lookup "evidra.rest/ticket" annotations)) (
          set_text "external_change_id" (text_or_empty (lookup "evidra.rest/change-id" annotations))
            m)))

unfoldable pub extensions_of : SourceEvent → String → Dict Value
extensions_of se default_env = elim se.payload [
  | none ↦ own_extensions se default_env
  | some payload ↦ with_annotations (payload_annotations payload) (own_extensions se default_env)
]

-- The approvals that an annotation brings as JSON.
unfoldable pub parsed_approvals : Platform → String → Dict Value
parsed_approvals p raw =
    if trim_space raw == "" then [] else elim (p.unmarshal_objects (trim_space raw)) [
      | none ↦ []
      | some parsed ↦ ("approvals", array (items_of parsed)) ∷ []
    ]

unfoldable pub payload_fields : Platform → Option (Dict Value) → Dict Value
payload_fields p none = []
payload_fields p (some payload) =
    ("source_payload", object (fields_of payload))
    ∷ parsed_approvals p
        (text_or_empty (lookup "evidra.rest/approvals-json" (payload_annotations payload)))

-- The fields of the event's data.
unfoldable pub data_fields : Platform → SourceEvent → Dict Value
data_fields p se =
    ("argocd_app", text (trim_space se.app))
    ∷ ("phase", text (trim_space se.result))
    ∷ ("result", text (trim_space se.result))
    ∷ payload_fields p se.payload

unfoldable pub is_complete : SourceEvent → Bool
is_complete se =
    if trim_space se.id == "" || trim_space se.app == "" || is_zero_time se.occurred
    then false
    else true

-- The event that is made of a complete one and its data.
unfoldable pub event_of : SourceEvent → String → String → StoredEvent
event_of se default_env payload = record {
  id = "evt_argocd_" <> se.id;
  type = event_type_of se;
  source = "argocd";
  subject = trim_space se.app;
  time = se.occurred;
  extensions = extensions_of se default_env;
  payload = payload;
  integrity_hash = "";
  ingested_at = 0;
}

-- NormalizeSourceEvent
unfoldable pub normalize_source_event : Platform → SourceEvent → String → Result StoredEvent
normalize_source_event p se default_env =
    if is_complete se
    then elim (p.marshal_object (data_fields p se)) [
      | none ↦ err (other "marshal data")
      | some payload ↦ ok (event_of se default_env payload)
    ]
    else err (other "invalid source event")
