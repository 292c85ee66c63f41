-- ===== src/Tests/Kubernetes.antt =====
-- The collector of internal/providers/kubernetes at concrete events.
use Prim.Native.String.{[], ◌∷◌}
use evidra_gitops.Base.{
  ℕ, zero, suc, ◌%◌, String, ◌<>◌, ◌≡◌, refl, true, false, Option, none, some, List, [], ◌∷◌,
  eq_refl,
}
use evidra_gitops.Base.Int.{ℤ, pos, negsuc}
use evidra_gitops.Base.Dict.{Dict, lookup}
use evidra_gitops.Value.{Value, text}
use evidra_gitops.Result.{ok}
use evidra_gitops.Event.{StoredEvent, string_of_value}
use evidra_gitops.Store.{MemoryRepository, new_memory_repository}
use evidra_gitops.App.Memory.{memory_repository}
use evidra_gitops.Api.Events.Stored.{IsStored}
use evidra_gitops.Providers.Kubernetes.{KubernetesEvent, normalize_event}
use evidra_gitops.Providers.Kubernetes.Collector.{
  Printing, Settings, Collector, EventClient, Polling, Readings, collapsed_id, observe, poll_events,
  should_collapse_lifecycle, to_collapsed_supporting,
}
use evidra_gitops.Providers.Kubernetes.Collector.Stored.{
  IsEncoding, AllSettled, normal, poll_events-AllSettled,
}
use evidra_gitops.Providers.Kubernetes.Collector.Collapsed.{AreAlike, observe_once}
use evidra_gitops.Tests.Standard.{standard, tally, empty_canonical, joined}
use evidra_gitops.Tests.Argo.{standard-EncodesObjects}
use evidra_gitops.Tests.Sql.{encodes_all}

unfoldable last_digit : ℤ → String
last_digit (pos n) = tally (n % 10)
last_digit (negsuc n) = "-" ∷ tally (n % 10)

unfoldable pub printed_value : Option Value → String
printed_value none = "<nil>"
printed_value (some v) = string_of_value v

abbrev printing : Printing
printing = record { value = printed_value; decimal = last_digit }

standard-IsEncoding : IsEncoding standard
unfolding empty_canonical
standard-IsEncoding = record {
  objects = standard-EncodesObjects;
  all = encodes_all;
  canonicals = record {
    canonical_encoded = λ c m h. (joined c.id (joined c.source c.payload), refl);
  };
}

abbrev settings : Settings
settings = record { interval = pos 1; namespace = ""; cluster = "eu-1"; environment = "prod" }

abbrev pulled : KubernetesEvent
pulled = record {
  uid = "u1";
  resource_version = "7";
  namespace = "default";
  type = "Normal";
  reason = "Pulled";
  message = "pulled the image";
  reporting_controller = "kubelet";
  source_component = "";
  involved_kind = "Pod";
  involved_name = "shop";
  involved_namespace = "default";
  event_time = 0;
  last_timestamp = 20;
  first_timestamp = 10;
  series = none;
}

abbrev pulled_again : KubernetesEvent
pulled_again = record pulled { uid = "u2"; resource_version = "8"; last_timestamp = 30 }

abbrev readings : Readings
readings = record { for_id = 40; for_time = 41; for_ingest = 42 }

abbrev client : EventClient
client namespace version = ok (pulled ∷ pulled_again ∷ [], "8")

abbrev collector : Collector MemoryRepository
collector = record {
  settings = settings;
  client = some client;
  sink = some (memory_repository standard);
}

abbrev fresh : Polling MemoryRepository
fresh = record { last_resource_version = ""; repo = new_memory_repository }

poll_events-AllSettled_example :
    AllSettled standard printing settings
      (λ k. readings)
      0
      (pulled ∷ pulled_again ∷ [])
      new_memory_repository
      (poll_events standard printing collector (λ k. readings) fresh).repo
poll_events-AllSettled_example =
    poll_events-AllSettled standard printing standard-IsEncoding collector client (λ k. readings)
      fresh (pulled ∷ pulled_again ∷ []) "8" refl refl refl (λ k. refl)

-- A synchronization of the object's application, and the first event that is collapsed to it.
abbrev synced : StoredEvent
synced = record {
  id = "s1";
  type = "argo.sync.finished";
  source = "argocd";
  subject = "shop";
  time = 25;
  extensions = ("cluster", text "eu-1") ∷ ("namespace", text "prod") ∷ [];
  payload = "{}";
  integrity_hash = "h";
  ingested_at = 26;
}

abbrev collapsed : StoredEvent
collapsed = to_collapsed_supporting standard printing (normal standard settings readings pulled)

abbrev held : MemoryRepository
held = record new_memory_repository { events = (collapsed.id, collapsed) ∷ ("s1", synced) ∷ [] }

alike : AreAlike 41 41 pulled pulled_again
unfolding evidra_gitops.Providers.Kubernetes.event_timestamp
    evidra_gitops.Providers.Kubernetes.infer_app evidra_gitops.Providers.Kubernetes.reason_of
alike = record { objects = refl; reasons = refl; windows = refl }

collapsed_held : IsStored held (collapsed_id printing (normal standard settings readings pulled))
unfolding IsStored lookup to_collapsed_supporting
collapsed_held = (collapsed, rw eq_refl)

is_noise :
    should_collapse_lifecycle printing
      (memory_repository standard)
      (normal standard settings readings pulled_again)
      held
    ≡ true
unfolding should_collapse_lifecycle evidra_gitops.Base.equal_fold evidra_gitops.Base.trim_space
    printed_value normalize_event evidra_gitops.Providers.Kubernetes.kubernetes_extensions
    evidra_gitops.Base.Dict.insert evidra_gitops.Providers.Kubernetes.supporting_class
    evidra_gitops.Providers.Kubernetes.is_lifecycle_noise
    evidra_gitops.Providers.Kubernetes.reason_of memory_repository
    evidra_gitops.Store.Query.query_timeline evidra_gitops.Store.Cursor.decode_cursor
    evidra_gitops.Providers.Kubernetes.Collector.correlation_query
    evidra_gitops.Event.extension_string evidra_gitops.Providers.Kubernetes.event_timestamp
    evidra_gitops.Providers.Kubernetes.infer_app evidra_gitops.Store.Query.behind_cursor
    evidra_gitops.Store.Query.events_by_extension evidra_gitops.Store.Query.filtered_out
    evidra_gitops.Store.Query.kept evidra_gitops.Store.Query.list_subjects
    evidra_gitops.Store.Query.matches evidra_gitops.Store.Query.page
    evidra_gitops.Store.Query.timeline_limit to_collapsed_supporting
is_noise = refl

observe_once_example :
    observe standard printing settings (memory_repository standard) readings pulled_again held
    ≡ held
observe_once_example =
    observe_once standard printing settings readings readings pulled pulled_again held alike
      collapsed_held is_noise
