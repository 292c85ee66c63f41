-- ===== src/Providers/Kubernetes/Collector.antt =====
-- The Collector of internal/providers/kubernetes/collector.go: NewCollector, its loop, and the lifecycle
-- events that it collapses. Logging is left out, and a failure is only logged.
pub mod Taking
pub mod Stored
pub mod Collapsed
use evidra_gitops.Base.{
  ℕ, ◌+◌, ◌-◌, ◌*◌, ◌/◌, ◌%◌, ◌^◌, String, ◌<>◌, Bool, true, false, not, Option, none, some, List,
  [], ◌∷◌, ◌==◌, if◌then◌else◌, leb, trim_space, to_lower, equal_fold,
}
use evidra_gitops.Base.Int.{ℤ, pos, negsuc, is_positive}
use evidra_gitops.Base.Dict.{Dict, lookup, insert}
use evidra_gitops.Value.{Value, bool, text}
use evidra_gitops.Result.{Error, Result, ok, err}
use evidra_gitops.Event.{StoredEvent, extension_string}
use evidra_gitops.Event.Platform.{Platform}
use evidra_gitops.Store.Query.{TimelineQuery, TimelineResult}
use evidra_gitops.App.{Repository}
use evidra_gitops.Argo.Normalize.{trimmed_or}
use evidra_gitops.Providers.Kubernetes.{KubernetesEvent, normalize_event}
use evidra_gitops.Providers.Kubernetes.Slug.{slug}

-- `fmt.Sprintf` under "%v" of what a map has under a key, and under "%d" of a number
pub record Printing : Type 0 where
  pub value : Option Value → String
  pub decimal : ℤ → String

abbrev one_second : ℕ
one_second = 1000000000

abbrev minute : ℕ
minute = 60 * one_second

abbrev pub collapse_window : ℕ
collapse_window = 5 * minute

pub record Settings : Type 0 where
  pub interval : ℤ
  pub namespace : String
  pub cluster : String
  pub environment : String

-- What a Client answers to a list of events of a namespace, from a version on: the events and their
-- version. The field selector takes every event.
abbrev pub EventClient : Type 0
EventClient = String → String → Result (List KubernetesEvent × String)

-- The fields that are set once. `client` and `sink` may be nil.
pub record Collector (R : Type 0) : Type 0 where
  pub settings : Settings
  pub client : Option EventClient
  pub sink : Option (Repository R)

-- What changes as it runs, with the repository.
pub record Polling (R : Type 0) : Type 0 where
  pub last_resource_version : String
  pub repo : R

abbrev or_default : ℤ → ℤ
or_default interval = if is_positive interval then interval else pos (30 * one_second)

-- NewCollector
unfoldable pub new_collector :
    {R : Type 0} → Settings → Option EventClient → Option (Repository R) → Collector R
new_collector settings client sink = record {
  settings = record {
    interval = or_default settings.interval;
    namespace = trim_space settings.namespace;
    cluster = trimmed_or settings.cluster "unknown";
    environment = trimmed_or settings.environment "unknown";
  };
  client = client;
  sink = sink;
}

-- Where `fmt.Sprintf("%v")` makes a text of an extension.
abbrev printed : Printing → String → StoredEvent → String
printed print key e = print.value (lookup key e.extensions)

-- The query that looks for a finished synchronization around an event. A time in front of the first
-- is 0: it bounds nothing, as one in front of the first does.
unfoldable pub correlation_query : StoredEvent → TimelineQuery
correlation_query e = record {
  subject = e.subject;
  cluster = extension_string e.extensions "cluster";
  namespace = extension_string e.extensions "namespace";
  from = e.time - 10 * minute;
  to = e.time + 10 * minute;
  source = "argocd";
  type = "argo.sync.finished";
  correlation_key = "";
  correlation_value = "";
  include_supporting = true;
  limit = pos 1;
  cursor = "";
}

is_found : Result TimelineResult → Bool
is_found (err failure) = false
is_found (ok timeline) = elim timeline.items [ [] ↦ false | e ∷ es ↦ true ]

-- shouldCollapseLifecycle
unfoldable pub should_collapse_lifecycle :
    {R : Type 0} → Printing → Repository R → StoredEvent → R → Bool
unfolding is_found
should_collapse_lifecycle print sink e r =
    if equal_fold (trim_space (printed print "supporting_class" e)) "lifecycle_noise"
    then is_found (sink.query_timeline (correlation_query e) r)
    else false

-- `Truncate(5 * time.Minute)`, from the zero time on
unfoldable pub window_of : ℕ → ℕ
window_of t = t - t % collapse_window

-- The seconds from the zero time to the Unix epoch, and `Unix()`
abbrev epoch : ℕ
epoch = 62135596800

unfoldable pub unix_seconds : ℕ → ℤ
unix_seconds t =
    if leb epoch (t / one_second)
    then pos (t / one_second - epoch)
    else negsuc (epoch - t / one_second - 1)

unfoldable pub event_reason : Printing → StoredEvent → String
event_reason print e =
    let reason = to_lower (trim_space (printed print "event_reason" e)) in
    if reason == "" then "resource_event" else reason

unfoldable pub collapsed_id : Printing → StoredEvent → String
collapsed_id print e =
    "evt_k8s_support_"
    <> slug (to_lower e.subject)
    <> "_"
    <> slug (event_reason print e)
    <> "_"
    <> print.decimal (unix_seconds (window_of e.time))

-- toCollapsedSupporting
unfoldable pub to_collapsed_supporting : Platform → Printing → StoredEvent → StoredEvent
to_collapsed_supporting p print e = record e {
  id = collapsed_id print e;
  extensions =
      insert "collapse_window_start" (text (p.format_rfc3339 (window_of e.time)))
        (insert "collapsed" (bool true) e.extensions);
}

-- The readings of the clock for one event: for its id, its time and its ingestion.
pub record Readings : Type 0 where
  pub for_id : ℕ
  pub for_time : ℕ
  pub for_ingest : ℕ

module _ {R : Type 0} (p : Platform) (print : Printing) (settings : Settings)
    (sink : Repository R) where
  -- The event that is ingested for one of the cluster.
  unfoldable pub observed_event : Readings → KubernetesEvent → R → StoredEvent
  observed_event at e r =
      let normalized =
        normalize_event p settings.cluster settings.environment at.for_id at.for_time e in
      if should_collapse_lifecycle print sink normalized r
      then to_collapsed_supporting p print normalized
      else normalized

  unfoldable pub observe : Readings → KubernetesEvent → R → R
  observe at e r = (sink.ingest_event at.for_ingest (observed_event at e r) r).1

  -- The loop over the listed events; the n-th has the clock's n-th readings.
  unfoldable pub observe_all : (ℕ → Readings) → ℕ → List KubernetesEvent → R → R
  observe_all clock n [] r = r
  observe_all clock n (e ∷ es) r = observe_all clock (n + 1) es (observe (clock n) e r)

module _ {R : Type 0} (p : Platform) (print : Printing) (c : Collector R) where
  unfoldable pub after_list :
      Repository R → (ℕ → Readings) → Result (List KubernetesEvent × String) → Polling R → Polling R
  after_list sink clock (err failure) s = s
  after_list sink clock (ok (events, version)) s = record {
    last_resource_version = version;
    repo = observe_all p print c.settings sink clock 0 events s.repo;
  }

  -- poll
  unfoldable pub poll_events : (ℕ → Readings) → Polling R → Polling R
  poll_events clock s = elim c.client [
    | none ↦ s
    | some client ↦ elim c.sink [
      | none ↦ s
      | some sink ↦ after_list sink clock (client c.settings.namespace s.last_resource_version) s
    ]
  ]
