-- ===== src/Argo/Collector/Object.antt =====
-- handleAppEvent and nestedString of internal/ingest/argo/collector.go: what the informer makes of an
-- Application. A panic of the handler is `none`.
pub mod Resync
use evidra_gitops.Base.{
  ℕ, zero, suc, ◌/◌, ◌^◌, String, ◌<>◌, Bool, Option, none, some, List, [], ◌∷◌, ◌==◌,
  if◌then◌else◌,
}
use evidra_gitops.Base.Int.{ℤ, pos, negsuc}
use evidra_gitops.Base.Dict.{Dict, lookup}
use evidra_gitops.Value.{
  Value, Number, nil, bool, float64, int, int64, text, array, object, strings, string_map, elements,
  entries,
}
use evidra_gitops.Event.{is_zero_time}
use evidra_gitops.Event.Platform.{Platform}
use evidra_gitops.Argo.{SourceEvent}
use evidra_gitops.Argo.Collector.{
  Collector, CollectorState, Outcome, skipped, no_target, collected, not_normalized, not_ingested,
  collect, save_checkpoint,
}

-- What the handler reads of an unstructured.Unstructured.
pub record AppObject : Type 0 where
  pub name : String
  pub uid : String
  pub namespace : String
  pub content : Dict Value

-- `v.(map[string]interface{})`, `v.([]interface{})` and `v.(string)`, with their `ok`
unfoldable pub as_map : Value → Option (Dict Value)
as_map (object fs) = some (entries fs)
as_map _ = none

unfoldable pub as_slice : Value → Option (List Value)
as_slice (array vs) = some (elements vs)
as_slice _ = none

unfoldable pub as_string : Value → Option String
as_string (text s) = some s
as_string _ = none

unfoldable pub map_at : String → Dict Value → Option (Dict Value)
map_at key m = elim (lookup key m) [ none ↦ none | some v ↦ as_map v ]

unfoldable pub string_at : String → Dict Value → Option String
string_at key m = elim (lookup key m) [ none ↦ none | some v ↦ as_string v ]

unfoldable pub slice_at : String → Dict Value → Option (List Value)
slice_at key m = elim (lookup key m) [ none ↦ none | some v ↦ as_slice v ]

-- nestedString
unfoldable pub nested_string : Dict Value → List String → Option String
nested_string m [] = none
nested_string m (key ∷ []) = string_at key m
nested_string m (key ∷ next ∷ keys) = elim (map_at key m) [
  | none ↦ none
  | some inner ↦ nested_string inner (next ∷ keys)
]

abbrev pub first_string : Option String → Option String → String
first_string a b = elim a [ some s ↦ s | none ↦ elim b [ some s ↦ s | none ↦ "" ] ]

-- The last entry of an application's history, as far as the handler reads it.
pub record Deployment : Type 0 where
  pub id : ℤ
  pub revision : String
  pub deployed : ℕ

abbrev pub no_deployment : Deployment
no_deployment = record { id = pos 0; revision = ""; deployed = 0 }

-- `int64(f)`, toward zero, for a number that fits
unfoldable pub signed : Bool → ℕ → ℤ
signed negative zero = pos 0
signed negative (suc n) = if negative then negsuc n else pos (suc n)

unfoldable pub truncated : Number → ℤ
truncated n = signed n.negative (n.digits / (10 ^ n.scale))

unfoldable pub history_id_of : Option Value → ℤ
history_id_of (some (int64 n)) = n
history_id_of (some (float64 x)) = truncated x
history_id_of _ = pos 0

-- A time that stands in the content, or the zero time.
unfoldable pub time_of : Platform → Option String → ℕ
time_of p none = 0
time_of p (some raw) = elim (p.parse_rfc3339 raw) [ none ↦ 0 | some t ↦ t ]

unfoldable pub deployment_of : Platform → Dict Value → Deployment
deployment_of p entry = record {
  id = history_id_of (lookup "id" entry);
  revision = first_string (string_at "revision" entry) none;
  deployed = time_of p (string_at "deployedAt" entry);
}

-- `histSlice[len(histSlice)-1].(map[string]interface{})`
unfoldable pub last_deployment : Platform → List Value → Option Deployment
last_deployment p [] = some no_deployment
last_deployment p (v ∷ []) = elim (as_map v) [
  | none ↦ none
  | some entry ↦ some (deployment_of p entry)
]
last_deployment p (v ∷ w ∷ vs) = last_deployment p (w ∷ vs)

-- The block that reads the history: `payload["status"]` has to be a map.
unfoldable pub read_deployment : Platform → Dict Value → Option Deployment
read_deployment p content = elim (map_at "status" content) [
  | none ↦ none
  | some status ↦ elim (slice_at "history" status) [
    | none ↦ some no_deployment
    | some entries ↦ last_deployment p entries
  ]
]

unfoldable pub operation_key_of : Dict Value → Deployment → String
operation_key_of content d =
    let revision =
      first_string (nested_string content ("status" ∷ "sync" ∷ "revision" ∷ [])) none in
    if revision == "" then d.revision else revision

-- The time of the deployment, or else when the operation finished, or else now.
unfoldable pub occurred_of : Platform → ℕ → Dict Value → Deployment → ℕ
occurred_of p now content d =
    if is_zero_time d.deployed
    then elim (nested_string content ("status" ∷ "operationState" ∷ "finishedAt" ∷ [])) [
      | none ↦ now
      | some raw ↦ elim (p.parse_rfc3339 raw) [ none ↦ now | some t ↦ t ]
    ]
    else d.deployed

-- The source event, with the two readings of the clock.
unfoldable pub source_event_of : Platform → ℕ → ℕ → AppObject → Deployment → SourceEvent
source_event_of p now nanos app d = record {
  id = app.uid <> "-" <> p.unix_nano nanos;
  app_uid = app.uid;
  app = app.name;
  cluster =
      first_string (nested_string app.content ("spec" ∷ "destination" ∷ "name" ∷ []))
        (nested_string app.content ("spec" ∷ "destination" ∷ "server" ∷ []));
  namespace = app.namespace;
  revision = operation_key_of app.content d;
  occurred = occurred_of p now app.content d;
  actor = "";
  event_type = "argo.sync.finished";
  result =
      first_string (nested_string app.content ("status" ∷ "operationState" ∷ "phase" ∷ []))
        (nested_string app.content ("status" ∷ "sync" ∷ "status" ∷ []));
  health_status =
      first_string (nested_string app.content ("status" ∷ "health" ∷ "status" ∷ [])) none;
  history_id = d.id;
  operation_key = operation_key_of app.content d;
  payload = some app.content;
}

module _ {R D : Type 0} (c : Collector R D) where
  -- The checkpoint is saved if the event was collected.
  unfoldable pub saved_if_collected : Outcome × CollectorState R D → Outcome × CollectorState R D
  saved_if_collected (collected, s) = (collected, save_checkpoint c s)
  saved_if_collected (skipped, s) = (skipped, s)
  saved_if_collected (no_target, s) = (no_target, s)
  saved_if_collected (not_normalized failure, s) = (not_normalized failure, s)
  saved_if_collected (not_ingested failure, s) = (not_ingested failure, s)

  -- handleAppEvent
  unfoldable pub handle_app_event :
      Platform → ℕ → ℕ → ℕ → AppObject → CollectorState R D → Option (Outcome × CollectorState R D)
  handle_app_event p now nanos later app s = elim (read_deployment p app.content) [
    | none ↦ none
    | some d ↦ some (saved_if_collected (collect c later (source_event_of p now nanos app d) s))
  ]
