-- ===== src/Providers/Kubernetes.antt =====
-- normalizeEvent and its helpers in internal/providers/kubernetes/collector.go. A time of the Kubernetes
-- API that is not set is 0.
pub mod Collector
pub mod Slug
use Prim.Native.Char.{Char, code}
use Prim.Native.String.{[], ◌∷◌}
use evidra_gitops.Base.{
  ℕ, String, ◌<>◌, Bool, true, false, not, ◌&&◌, ◌||◌, Option, none, some, List, [], ◌∷◌, ◌==◌, leb,
  eqb, any, if◌then◌else◌, trim_space, to_lower, equal_fold,
}
use evidra_gitops.Base.Dict.{Dict, insert}
use evidra_gitops.Value.{Value, bool, text}
use evidra_gitops.Event.{StoredEvent, is_zero_time}
use evidra_gitops.Event.Platform.{Platform}
use evidra_gitops.Argo.Normalize.{trimmed_or, text_or_empty}

-- What the collector reads of a corev1.Event; `series` is the time of its series, if it has one.
pub record KubernetesEvent : Type 0 where
  pub uid : String
  pub resource_version : String
  pub namespace : String
  pub type : String
  pub reason : String
  pub message : String
  pub reporting_controller : String
  pub source_component : String
  pub involved_kind : String
  pub involved_name : String
  pub involved_namespace : String
  pub event_time : ℕ
  pub last_timestamp : ℕ
  pub first_timestamp : ℕ
  pub series : Option ℕ

-- inferApp
unfoldable pub infer_app : KubernetesEvent → String
infer_app e = trimmed_or e.involved_name "unknown"

abbrev lifecycle_reasons : List String
lifecycle_reasons =
    "pulled" ∷ "pulling" ∷ "created" ∷ "started" ∷ "killing" ∷ "scheduled" ∷ "successfulcreate" ∷ []

-- isLifecycleNoise
unfoldable pub is_lifecycle_noise : String → Bool
is_lifecycle_noise reason = any (λ r. r == to_lower (trim_space reason)) lifecycle_reasons

-- eventTimestamp, with the time that it reads from the clock
unfoldable pub event_timestamp : ℕ → KubernetesEvent → ℕ
event_timestamp now e =
    if not (is_zero_time e.event_time)
    then e.event_time
    else if not (is_zero_time e.last_timestamp)
    then e.last_timestamp
    else if not (is_zero_time e.first_timestamp)
    then e.first_timestamp
    else elim e.series [ none ↦ now | some t ↦ if not (is_zero_time t) then t else now ]

unfoldable pub actor_of : KubernetesEvent → String
actor_of e = trimmed_or e.reporting_controller (trimmed_or e.source_component "kubernetes")

-- The id of an event, with the time that is read from the clock where it has no version.
unfoldable pub id_of : Platform → ℕ → KubernetesEvent → String
id_of p now e =
    if trim_space e.resource_version == ""
    then "evt_k8s_" <> e.uid <> "_" <> p.unix_nano now
    else "evt_k8s_" <> e.uid <> "_" <> e.resource_version

unfoldable pub reason_of : KubernetesEvent → String
reason_of e = to_lower (trim_space e.reason)

abbrev is_warning : KubernetesEvent → Bool
is_warning e = equal_fold (trim_space e.type) "warning"

-- `eventType`
unfoldable pub kubernetes_type : KubernetesEvent → String
kubernetes_type e =
    if is_lifecycle_noise (reason_of e)
    then "k8s.supporting.lifecycle"
    else if is_warning e
    then "k8s.incident.signal"
    else "k8s.supporting.observation"

unfoldable pub supporting_class : KubernetesEvent → String
supporting_class e =
    if is_lifecycle_noise (reason_of e)
    then "lifecycle_noise"
    else if is_warning e
    then "incident_signal"
    else "supporting_evidence"

-- The extensions, for a cluster and an environment.
unfoldable pub kubernetes_extensions : String → String → KubernetesEvent → Dict Value
kubernetes_extensions cluster environment e = insert "cluster" (text cluster) (
    ("cluster", text "eu-1")
    ∷ ("namespace", text environment)
    ∷ ("initiator", text (actor_of e))
    ∷ ("supporting_observation", bool true)
    ∷ ("supporting_class", text (supporting_class e))
    ∷ ("event_reason", text (if reason_of e == "" then "resource_event" else reason_of e))
    ∷ ("k8s_namespace", text e.namespace)
    ∷ ("involved_kind", text e.involved_kind)
    ∷ ("involved_name", text e.involved_name)
    ∷ ("involved_namespace", text e.involved_namespace)
    ∷ ("reason", text e.reason)
    ∷ ("type", text e.type)
    ∷ ("reporting_controller", text e.reporting_controller)
    ∷ [])

unfoldable pub kubernetes_data : KubernetesEvent → Dict Value
kubernetes_data e =
    ("involved_kind", text e.involved_kind)
    ∷ ("involved_name", text e.involved_name)
    ∷ ("reason", text e.reason)
    ∷ ("message", text e.message)
    ∷ ("resource", text (to_lower e.involved_kind <> "/" <> e.involved_name))
    ∷ []

-- normalizeEvent, with the two times that it may read from the clock: an error of the encoder is
-- dropped, and leaves no data.
unfoldable pub normalize_event : Platform → String → String → ℕ → ℕ → KubernetesEvent → StoredEvent
normalize_event p cluster environment now later e = record {
  id = id_of p now e;
  type = kubernetes_type e;
  source = "kubernetes";
  subject = infer_app e;
  time = event_timestamp later e;
  extensions = kubernetes_extensions cluster environment e;
  payload = text_or_empty (p.marshal_object (kubernetes_data e));
  integrity_hash = "";
  ingested_at = 0;
}
