-- ===== src/Argo/Client.antt =====
-- The events that internal/ingest/argo/client_fetch_argocd.go derives from an Application of Argo CD,
-- and the choice of the backend in internal/ingest/argo/backend.go. The records below are the fields
-- that are read of the types of Argo CD; the constants of its phases, the texts of numbers, the host
-- of a URL and the client are parameters.
pub mod Keys
pub mod Fetch
pub mod Stable
pub mod Complete
use evidra_gitops.Base.{
  ℕ, ◌+◌, ◌-◌, ◌*◌, String, Bool, true, false, not, ◌&&◌, ◌||◌, Option, none, some, List, [], ◌∷◌,
  ◌++◌, ◌==◌, if◌then◌else◌, ltb, trim_space,
}
use evidra_gitops.Base.Int.{ℤ, pos}
use evidra_gitops.Base.Dict.{Dict, lookup}
use evidra_gitops.Value.{Value, text, int64, string_map}
use evidra_gitops.Event.{is_zero_time}
use evidra_gitops.Event.Platform.{Platform}
use evidra_gitops.Argo.{SourceEvent}
use evidra_gitops.Argo.Client.Keys.{
  Formats, time_from_meta, deterministic_history_id, deterministic_operation_id,
  deterministic_health_id, operation_key, history_operation_key,
}
use evidra_gitops.Argo.Normalize.{trimmed_or, text_or_empty}

pub record RevisionHistory : Type 0 where
  pub id : ℤ
  pub revision : String
  pub deployed_at : ℕ
  pub deploy_started_at : Option ℕ

pub record OperationState : Type 0 where
  pub phase : String
  pub started_at : ℕ
  pub finished_at : Option ℕ
  pub username : String
  pub automated : Bool

pub record Application : Type 0 where
  pub uid : String
  pub name : String
  pub annotations : Dict String
  pub server : String
  pub namespace : String
  pub revision : String
  pub revisions : List String
  pub history : List RevisionHistory
  pub operation_state : Option OperationState
  pub health_status : String
  pub reconciled_at : Option ℕ

-- The phases of an operation, in gitops-engine.
pub record Phases : Type 0 where
  pub running : String
  pub terminating : String
  pub succeeded : String
  pub failed : String
  pub errored : String

abbrev pub is_terminal : Phases → String → Bool
is_terminal c phase = phase == c.succeeded || phase == c.failed || phase == c.errored

abbrev pub is_ongoing : Phases → String → Bool
is_ongoing c phase = phase == c.running || phase == c.terminating

abbrev evidra_annotation : String → Dict String → Dict String → Dict String
evidra_annotation k annotations rest =
    let v = trim_space (text_or_empty (lookup k annotations)) in
    if v == "" then rest else (k, v) ∷ rest

-- evidraAnnotations, with an empty map for nil
unfoldable pub evidra_annotations : Dict String → Dict String
evidra_annotations annotations = evidra_annotation "evidra.rest/change-id" annotations (
    evidra_annotation "evidra.rest/ticket" annotations (
      evidra_annotation "evidra.rest/approvals-ref" annotations
        (evidra_annotation "evidra.rest/approvals-json" annotations [])))

-- resolveActor
unfoldable pub actor_of_operation : Option OperationState → String
actor_of_operation none = "argocd"
actor_of_operation (some o) =
    if trim_space o.username == ""
    then if o.automated then "argocd-automated" else "argocd"
    else trim_space o.username

unfoldable pub first_revision : List String → String
first_revision [] = ""
first_revision (r ∷ rs) = r

unfoldable pub revision_of : Application → String
revision_of app = if app.revision == "" then first_revision app.revisions else app.revision

-- The times from which mostRecentTime chooses.
unfoldable pub operation_choices : Option OperationState → List ℕ
operation_choices none = []
operation_choices (some o) = time_from_meta o.finished_at ∷ o.started_at ∷ []

unfoldable pub start_choices : Option ℕ → List ℕ
start_choices none = []
start_choices (some t) = t ∷ []

unfoldable pub last_choices : List RevisionHistory → List ℕ
last_choices [] = []
last_choices (h ∷ []) = h.deployed_at ∷ start_choices h.deploy_started_at
last_choices (h ∷ i ∷ hs) = last_choices (i ∷ hs)

unfoldable pub latest : ℕ → List ℕ → ℕ
latest best [] = best
latest best (t ∷ ts) = latest (if is_zero_time t then best else if ltb best t then t else best) ts

-- mostRecentTime, with what `time.Now` answers
unfoldable pub most_recent_time : ℕ → Application → ℕ
most_recent_time now app =
    let t = latest 0 (
      time_from_meta app.reconciled_at ∷ operation_choices app.operation_state
      ++ last_choices app.history) in
    if is_zero_time t then now else t

-- historyOccurredAt
unfoldable pub history_occurred_at : ℕ → RevisionHistory → Application → ℕ
history_occurred_at now h app =
    if is_zero_time h.deployed_at
    then if is_zero_time (time_from_meta h.deploy_started_at)
      then most_recent_time now app
      else time_from_meta h.deploy_started_at
    else h.deployed_at

-- What terminalOperationWindow returns where it returns `true`.
pub record Window : Type 0 where
  pub revision : String
  pub started_at : ℕ
  pub finished_at : ℕ

abbrev pub finished_or_started : OperationState → ℕ
finished_or_started o =
    if is_zero_time (time_from_meta o.finished_at)
    then o.started_at
    else time_from_meta o.finished_at

-- terminalOperationWindow
unfoldable pub terminal_operation_window : Phases → Application → String → Option Window
terminal_operation_window c app revision = elim app.operation_state [
  | none ↦ none
  | some o ↦
      if is_terminal c o.phase
      then some (record {
        revision =
            if trim_space revision == "" then trim_space app.revision else trim_space revision;
        started_at = o.started_at;
        finished_at = finished_or_started o;
      })
      else none
]

-- Two minutes, in nanoseconds.
abbrev pub jitter : ℕ
jitter = 120 * 1000000000

-- sameRevisionWindow; a start within two minutes of the zero time bounds nothing, in Go too.
unfoldable pub same_revision_window : String → ℕ → Window → Bool
same_revision_window revision occurred w =
    if trim_space revision == "" || trim_space w.revision == ""
    then false
    else if not (trim_space revision == trim_space w.revision)
    then false
    else if is_zero_time occurred || is_zero_time w.started_at || is_zero_time w.finished_at
    then true
    else not (ltb occurred (w.started_at - jitter)) && not (ltb (w.finished_at + jitter) occurred)

unfoldable pub is_in_window : Option Window → String → ℕ → Bool
is_in_window none revision occurred = false
is_in_window (some w) revision occurred = same_revision_window revision occurred w
