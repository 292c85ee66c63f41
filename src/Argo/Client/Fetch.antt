-- ===== src/Argo/Client/Fetch.antt =====
-- toSourceEvents of internal/ingest/argo/client_fetch_argocd.go, the fetch over a list of
-- Applications, and the address of the server.
use evidra_gitops.Base.{
  ℕ, ◌+◌, String, ◌<>◌, Bool, true, false, ◌||◌, Option, none, some, List, [], ◌∷◌, ◌++◌, ◌==◌,
  if◌then◌else◌, trim_space, to_lower, cut_prefix,
}
use evidra_gitops.Base.Int.{pos}
use evidra_gitops.Base.Dict.{Dict}
use evidra_gitops.Value.{Value, text, int64, string_map}
use evidra_gitops.Result.{Result, ok, err, other}
use evidra_gitops.Event.{is_zero_time}
use evidra_gitops.Argo.{SourceEvent}
use evidra_gitops.Argo.Normalize.{trimmed_or}
use evidra_gitops.Argo.Client.Keys.{
  Formats, time_from_meta, deterministic_history_id, deterministic_operation_id,
  deterministic_health_id, operation_key, history_operation_key,
}
use evidra_gitops.Argo.Client.{
  RevisionHistory, OperationState, Application, Phases, is_terminal, is_ongoing, evidra_annotations,
  actor_of_operation, revision_of, most_recent_time, history_occurred_at, finished_or_started,
  terminal_operation_window, is_in_window,
}

unfoldable pub with_evidra : Dict String → Dict Value → Dict Value
with_evidra [] payload = payload
with_evidra (a ∷ annotations) payload =
    payload ++ ("annotations", string_map (a ∷ annotations)) ∷ []

-- What all events of an Application have in common.
unfoldable pub base_event : Application → SourceEvent
base_event app = record {
  id = "";
  app_uid = trim_space app.uid;
  app = trim_space app.name;
  cluster = trimmed_or app.server "unknown";
  namespace = trim_space app.namespace;
  revision = trim_space (revision_of app);
  occurred = 0;
  actor = actor_of_operation app.operation_state;
  event_type = "";
  result = "";
  health_status = "";
  history_id = pos 0;
  operation_key = "";
  payload = none;
}

unfoldable pub history_revision : Application → RevisionHistory → String
history_revision app h = trimmed_or h.revision (trim_space (revision_of app))

-- `finishedAt`
unfoldable pub operation_finished_at : ℕ → Application → OperationState → ℕ
operation_finished_at now app o =
    if is_zero_time (finished_or_started o) then most_recent_time now app else finished_or_started o

-- `occurred` of the health
unfoldable pub observed_at : ℕ → Application → ℕ
observed_at now app =
    if is_zero_time (time_from_meta app.reconciled_at)
    then now
    else time_from_meta app.reconciled_at

module _ (f : Formats) (c : Phases) where
  unfoldable pub history_event : Application → RevisionHistory → ℕ → SourceEvent
  history_event app h occurred =
      let revision = history_revision app h in
      record (base_event app) {
        id = deterministic_history_id f (trim_space app.uid) h.id revision occurred;
        revision = revision;
        occurred = occurred;
        event_type = "argo.deployment.recorded";
        result = "Recorded";
        history_id = h.id;
        operation_key = history_operation_key f h.id revision occurred;
        payload = some (
            with_evidra (evidra_annotations app.annotations)
              (("history_id", int64 h.id) ∷ ("sync_revision", text revision) ∷ []));
      }

  -- The loop over the history; the n-th entry reads the n-th time of the clock, if any.
  unfoldable pub history_events :
      (ℕ → ℕ) → ℕ → Application → List RevisionHistory → List SourceEvent
  history_events clock n app [] = []
  history_events clock n app (h ∷ hs) =
      let rest = history_events clock (n + 1) app hs in
      let occurred = history_occurred_at (clock n) h app in
      if is_in_window (terminal_operation_window c app (revision_of app)) (history_revision app h)
        occurred
      then rest
      else history_event app h occurred ∷ rest

  unfoldable pub operation_event :
      Application → OperationState → String → String → String → ℕ → SourceEvent
  operation_event app o event_type suffix key occurred = record (base_event app) {
    id = deterministic_operation_id f (trim_space app.uid) key suffix;
    occurred = occurred;
    event_type = event_type;
    result = trim_space o.phase;
    operation_key = key;
    payload = some (
        with_evidra (evidra_annotations app.annotations)
          (("operation_phase", text (trim_space o.phase)) ∷ []));
  }

  -- The `switch` on the phase; Running and Terminating stand before the others.
  unfoldable pub operation_events : ℕ → Application → Option OperationState → List SourceEvent
  operation_events now app none = []
  operation_events now app (some o) =
      let finished_at = operation_finished_at now app o in
      let key = operation_key f (revision_of app) o.started_at finished_at in
      if is_ongoing c o.phase
      then if is_zero_time o.started_at
        then []
        else operation_event app o "argo.sync.started" "start" key o.started_at ∷ []
      else if is_terminal c o.phase
      then operation_event app o "argo.sync.finished" "finish" key finished_at ∷ []
      else []

  unfoldable pub health_event : Application → ℕ → SourceEvent
  health_event app occurred = record (base_event app) {
    id = deterministic_health_id f (trim_space app.uid) (trim_space app.health_status) occurred;
    occurred = occurred;
    actor = "argocd";
    event_type = "argo.health.changed";
    health_status = trim_space app.health_status;
    payload = some (
        with_evidra (evidra_annotations app.annotations) (
          ("health_status", text (trim_space app.health_status))
          ∷ ("observed_at", text (f.format_nano occurred))
          ∷ []));
  }

  unfoldable pub health_events : ℕ → Application → List SourceEvent
  health_events now app =
      if trim_space app.health_status == "" then [] else health_event app (observed_at now app) ∷ []

  -- toSourceEvents; `clock n` is the time that is read for the n-th of the three parts' events.
  unfoldable pub to_source_events : (ℕ → ℕ) → Application → List SourceEvent
  to_source_events clock app =
      history_events clock 2 app app.history
      ++ operation_events (clock 0) app app.operation_state
      ++ health_events (clock 1) app

  -- The loop of the fetch, with a clock for each Application.
  unfoldable pub fetched_events : (ℕ → ℕ → ℕ) → ℕ → List Application → List SourceEvent
  fetched_events clocks n [] = []
  fetched_events clocks n (app ∷ apps) =
      to_source_events (clocks n) app ++ fetched_events clocks (n + 1) apps

  -- The FetchFunc, with what the client's connection and its `List` answer
  unfoldable pub fetch :
      (ℕ → ℕ → ℕ) → Result (Unit {0}) → Result (List Application) → Result (List SourceEvent)
  fetch clocks (err failure) listed = err failure
  fetch clocks (ok connected) (err failure) = err failure
  fetch clocks (ok connected) (ok apps) = ok (fetched_events clocks 0 apps)

-- `strings.HasPrefix`, its arguments turned
abbrev begins_with : String → String → Bool
begins_with prefix s = elim (cut_prefix s prefix) [ none ↦ false | some behind ↦ true ]

unfoldable pub host_answer : Result String → Result String
host_answer (err failure) = err failure
host_answer (ok host) =
    if trim_space host == "" then err (other "invalid argo api url") else ok (trim_space host)

-- normalizeArgoServerAddr, with `url.Parse` and the host it finds
unfoldable pub normalize_argo_server_addr : (String → Result String) → String → Result String
normalize_argo_server_addr parse_host raw =
    if trim_space raw == ""
    then err (other "argo api url is empty")
    else if begins_with "http://" (trim_space raw) || begins_with "https://" (trim_space raw)
    then host_answer (parse_host (trim_space raw))
    else ok (trim_space raw)

-- BackendOptions of internal/ingest/argo/backend.go
pub record BackendOptions : Type 0 where
  pub backend : String
  pub url : String
  pub token : String

-- NewArgoCDClientFetcher, with the client that is made for an address and a token
unfoldable pub new_argocd_client_fetcher {ℓ} :
    {F : Type ℓ}
    → (String → Result String)
    → (String → String → Result F)
    → BackendOptions
    → Result F
new_argocd_client_fetcher parse_host new_client opts =
    elim (normalize_argo_server_addr parse_host opts.url) [
      | err failure ↦ err failure
      | ok addr ↦ new_client addr (trim_space opts.token)
    ]

-- NewFetchFunc of internal/ingest/argo/backend.go
unfoldable pub new_fetch_func {ℓ} :
    {F : Type ℓ}
    → (String → Result String)
    → (String → String → Result F)
    → BackendOptions
    → Result F
new_fetch_func parse_host new_client opts =
    let backend = to_lower (trim_space opts.backend) in
    if backend == "" || backend == "argocd-client"
    then new_argocd_client_fetcher parse_host new_client opts
    else err (other ("unsupported argo backend: " <> opts.backend))
