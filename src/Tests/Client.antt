-- ===== src/Tests/Client.antt =====
-- The events of a concrete Application of Argo CD.
use evidra_gitops.Base.{
  ℕ, suc, ◌+◌, String, ◌≡◌, refl, false, true, none, some, List, [], ◌∷◌, All, arith, eq_iff,
  trim_space, ◌≢◌, map,
}
use evidra_gitops.Base.Int.{pos}
use evidra_gitops.Event.{is_zero_time}
use evidra_gitops.Argo.{SourceEvent}
use evidra_gitops.Argo.Client.Keys.{Formats, time_from_meta}
use evidra_gitops.Argo.Client.{RevisionHistory, OperationState, Application, Phases}
use evidra_gitops.Argo.Client.Fetch.{to_source_events}
use evidra_gitops.Argo.Client.Stable.{to_source_events-stable}
use evidra_gitops.Argo.Client.Complete.{IsCollectable, to_source_events-IsCollectable}
use evidra_gitops.Tests.Standard.{tally}

abbrev formats : Formats
formats = record { format_int = λ n. "7"; unix = tally; unix_nano = tally; format_nano = tally }

abbrev phases : Phases
phases = record {
  running = "Running";
  terminating = "Terminating";
  succeeded = "Succeeded";
  failed = "Failed";
  errored = "Error";
}

abbrev deployment : String → ℕ → RevisionHistory
deployment revision t = record {
  id = pos 7;
  revision = revision;
  deployed_at = t;
  deploy_started_at = none;
}

abbrev shop : Application
shop = record {
  uid = "u1";
  name = " shop ";
  annotations = ("evidra.rest/ticket", "T-1") ∷ [];
  server = "";
  namespace = "prod";
  revision = "abc";
  revisions = [];
  history = deployment "old" 3 ∷ deployment "" 5 ∷ [];
  operation_state = some (record {
    phase = "Succeeded";
    started_at = 4;
    finished_at = some 6;
    username = "";
    automated = true;
  });
  health_status = "Healthy";
  reconciled_at = some 8;
}

abbrev types : List SourceEvent → List String
types ses = map (λ se. se.event_type) ses

-- The deployment of the operation's revision is not recorded a second time.
recorded_once :
    types (to_source_events formats phases (λ n. n + 1) shop)
    ≡ "argo.deployment.recorded" ∷ "argo.sync.finished" ∷ "argo.health.changed" ∷ []
unfolding to_source_events evidra_gitops.Argo.Client.Fetch.history_events
    evidra_gitops.Argo.Client.is_in_window evidra_gitops.Argo.Client.terminal_operation_window
    evidra_gitops.Argo.Client.same_revision_window trim_space
    evidra_gitops.Argo.Client.Fetch.history_revision evidra_gitops.Argo.Client.revision_of
    evidra_gitops.Argo.Client.Fetch.history_event evidra_gitops.Argo.Client.history_occurred_at
    time_from_meta evidra_gitops.Argo.Client.Fetch.operation_events
    evidra_gitops.Argo.Client.Fetch.operation_event evidra_gitops.Argo.Client.Fetch.health_events
    evidra_gitops.Argo.Client.Fetch.health_event
recorded_once = refl

shop_name : trim_space shop.name ≢ ""
unfolding trim_space
shop_name = ground (arith, eq_iff "shop" "")

is_dated : (n : ℕ) → is_zero_time (suc n) ≡ false
is_dated n = ground arith

to_source_events-stable_example :
    to_source_events formats phases (λ n. n) shop
    ≡ to_source_events formats phases (λ n. n + 9) shop
to_source_events-stable_example =
    to_source_events-stable shop (unfold time_from_meta in refl) formats phases (λ n. n)
      (λ n. n + 9)

to_source_events-IsCollectable_example :
    All IsCollectable (to_source_events formats phases (λ n. suc n) shop)
to_source_events-IsCollectable_example =
    to_source_events-IsCollectable formats phases (λ n. suc n) shop shop_name is_dated
