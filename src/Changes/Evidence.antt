-- ===== src/Changes/Evidence.antt =====
-- Approvals and references to external changes: approvalsFromData, approvalsFromMap and
-- externalCorrelationFromEvent of internal/app/changes.go.
use evidra_gitops.Base.{
  String, ◌&&◌, none, some, List, [], ◌∷◌, ◌++◌, ◌==◌, if◌then◌else◌, trim_space,
}
use evidra_gitops.Base.Dict.{Dict, lookup}
use evidra_gitops.Value.{
  Value, nil, bool, float64, int, int64, text, array, object, strings, string_map, elements,
  entries,
}
use evidra_gitops.Event.{StoredEvent, extension_string}
use evidra_gitops.Event.Platform.{Platform}
use evidra_gitops.Changes.Identity.{first_extension}
use evidra_gitops.Changes.Status.{or_text}

pub record ApprovalEvidence : Type 0 where
  pub source : String
  pub identity : String
  pub timestamp : String
  pub reference : String
  pub summary : String

text_entries : List (String × String) → Dict Value
text_entries [] = []
text_entries ((k, v) ∷ m) = (k, text v) ∷ text_entries m

-- A map inside a value; any other value counts as a nil map.
unfoldable pub map_of_value : Value → Dict Value
unfolding text_entries
map_of_value (object fs) = entries fs
map_of_value (string_map m) = text_entries m
map_of_value nil = []
map_of_value (bool b) = []
map_of_value (float64 n) = []
map_of_value (int n) = []
map_of_value (int64 n) = []
map_of_value (text s) = []
map_of_value (array vs) = []
map_of_value (strings ss) = []

-- nestedMap
unfoldable pub nested_map : Dict Value → String → Dict Value
nested_map m key = elim (lookup key m) [ none ↦ [] | some raw ↦ map_of_value raw ]

abbrev pub annotations : Dict Value → Dict Value
annotations data_map = nested_map (nested_map data_map "source_payload") "annotations"

pub record Correlation : Type 0 where
  pub external_change_id : String
  pub ticket_id : String
  pub approval_reference : String

-- `stringFromAny(annotations[key])`
abbrev annotation : Platform → String → String → String
annotation p payload key = if payload == "" then "" else elim (p.unmarshal_object payload) [
  | none ↦ ""
  | some m ↦ extension_string (annotations m) key
]

-- externalCorrelationFromEvent: each field from the extensions, else from the annotations.
unfoldable pub external_correlation_from_event : Platform → StoredEvent → Correlation
external_correlation_from_event p e = record {
  external_change_id =
      or_text
        (or_text (extension_string e.extensions "external_change_id")
          (extension_string e.extensions "change_id"))
        (annotation p e.payload "evidra.rest/change-id");
  ticket_id =
      or_text (extension_string e.extensions "ticket_id")
        (annotation p e.payload "evidra.rest/ticket");
  approval_reference =
      or_text (extension_string e.extensions "approval_reference")
        (annotation p e.payload "evidra.rest/approvals-ref");
}

-- appendIfSet, as the list that it appends
unfoldable pub if_set : ApprovalEvidence → List ApprovalEvidence
if_set a =
    if trim_space a.source == ""
      && trim_space a.identity == ""
      && trim_space a.timestamp == ""
      && trim_space a.reference == ""
      && trim_space a.summary == ""
    then []
    else a ∷ []

-- parseEntry, on a map
unfoldable pub parse_entry : Dict Value → List ApprovalEvidence
parse_entry m = if_set (record {
  source = first_extension m ("source" ∷ "approval.source" ∷ []);
  identity = first_extension m ("identity" ∷ "approval.identity" ∷ []);
  timestamp = first_extension m ("timestamp" ∷ "approval.timestamp" ∷ []);
  reference = first_extension m ("reference" ∷ "approval.reference" ∷ []);
  summary = first_extension m ("summary" ∷ "approval.summary" ∷ []);
})

-- parseEntry: what is no map[string]interface{} is passed over
entry_of_value : Value → List ApprovalEvidence
entry_of_value (object fs) = parse_entry (entries fs)
entry_of_value nil = []
entry_of_value (bool b) = []
entry_of_value (float64 n) = []
entry_of_value (int n) = []
entry_of_value (int64 n) = []
entry_of_value (text s) = []
entry_of_value (array vs) = []
entry_of_value (strings ss) = []
entry_of_value (string_map m) = []

entries_of_values : List Value → List ApprovalEvidence
entries_of_values [] = []
entries_of_values (v ∷ vs) = entry_of_value v ++ entries_of_values vs

-- The `switch` on data["approvals"].
approvals_field : Value → List ApprovalEvidence
approvals_field (array vs) = entries_of_values (elements vs)
approvals_field v = entry_of_value v

entries_of_maps : List (Dict Value) → List ApprovalEvidence
entries_of_maps [] = []
entries_of_maps (m ∷ ms) = parse_entry m ++ entries_of_maps ms

-- The annotation with approvals as JSON: a list of maps, else one map.
unfoldable pub annotated_approvals : Platform → String → List ApprovalEvidence
unfolding entries_of_maps
annotated_approvals p raw = if raw == "" then [] else elim (p.unmarshal_objects raw) [
  | some ms ↦ entries_of_maps ms
  | none ↦ elim (p.unmarshal_object raw) [ none ↦ [] | some m ↦ parse_entry m ]
]

-- approvalsFromMap
unfoldable pub approvals_from_map : Platform → Dict Value → List ApprovalEvidence
unfolding approvals_field entry_of_value entries_of_values
approvals_from_map p data_map =
    (elim (lookup "approvals" data_map) [ none ↦ [] | some raw ↦ approvals_field raw ])
    ++ annotated_approvals p (extension_string (annotations data_map) "evidra.rest/approvals-json")

-- approvalsFromData
unfoldable pub approvals_from_data : Platform → String → List ApprovalEvidence
approvals_from_data p payload =
    if payload == ""
    then []
    else elim (p.unmarshal_object payload) [ none ↦ [] | some m ↦ approvals_from_map p m ]
