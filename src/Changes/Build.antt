-- ===== src/Changes/Build.antt =====
-- buildChangesByID, finalizeChange and buildChanges of internal/app/changes.go. The map of changes is
-- walked in the order in which the changes were met; `now` is the time that is read for all of them.
pub mod Grouping
pub mod Distinct
pub mod Verdicts
pub mod Merging
pub mod Window
pub mod Dated
use evidra_gitops.Base.{
  ℕ, ◌+◌, String, ◌<>◌, Bool, true, false, not, ◌&&◌, Option, none, some, List, [], ◌∷◌, ◌++◌, ◌==◌,
  if◌then◌else◌, ltb, eqb, str_ltb, length, last?, trim_space, equal_fold, is_some,
}
use evidra_gitops.Base.Dict.{Dict, lookup, insert, values}
use evidra_gitops.Base.Sort.{sort_by}
use evidra_gitops.Event.{StoredEvent, extension_string}
use evidra_gitops.Event.Platform.{Platform}
use evidra_gitops.Store.{sort_stored_events}
use evidra_gitops.Changes.{PostDeployDegradation, Change, ChangeDetail}
use evidra_gitops.Changes.Identity.{Identity, derive_change_identity}
use evidra_gitops.Changes.Status.{
  or_text, infer_result_status, merge_result_status, infer_health_status, merge_health_status,
}
use evidra_gitops.Changes.Evidence.{external_correlation_from_event, approvals_from_data}

-- The change that an event opens, before the event is counted.
unfoldable pub new_change : Identity → StoredEvent → ChangeDetail
new_change i e = record {
  change = record {
    id = i.id;
    change_id = i.id;
    permalink = "/ui/explorer/change/" <> i.id;
    subject = e.subject;
    application = e.subject;
    project = "";
    target_cluster = extension_string e.extensions "cluster";
    namespace = extension_string e.extensions "namespace";
    primary_provider = i.provider;
    primary_reference = i.reference;
    revision = i.revision;
    initiator = "";
    external_change_id = "";
    ticket_id = "";
    approval_reference = "";
    result_status = "unknown";
    health_status = "unknown";
    health_at_operation_start = "unknown";
    health_after_deploy = "unknown";
    post_deploy_degradation = record { observed = false; first_timestamp = none };
    evidence_last_updated_at = 0;
    evidence_window_seconds = 0;
    evidence_may_be_incomplete = false;
    has_approvals = false;
    started_at = e.time;
    completed_at = e.time;
    event_count = 0;
  };
  events = [];
}

is_nonempty {ℓ} : {A : Type ℓ} → List A → Bool
is_nonempty [] = false
is_nonempty (x ∷ xs) = true

-- The body of the loop, on the change that the event belongs to.
unfoldable pub add_event : Platform → StoredEvent → ChangeDetail → ChangeDetail
unfolding is_nonempty
add_event p e cur =
    let c = cur.change in
    let found = external_correlation_from_event p e in
    let events = cur.events ++ (e ∷ []) in
    record {
      change = record c {
        external_change_id = or_text c.external_change_id found.external_change_id;
        ticket_id = or_text c.ticket_id found.ticket_id;
        approval_reference = or_text c.approval_reference found.approval_reference;
        has_approvals =
            if is_nonempty (approvals_from_data p e.payload) then true else c.has_approvals;
        project = or_text c.project (extension_string e.extensions "project");
        namespace = or_text c.namespace (extension_string e.extensions "namespace");
        target_cluster = or_text c.target_cluster (extension_string e.extensions "cluster");
        initiator = or_text c.initiator (trim_space (extension_string e.extensions "initiator"));
        started_at = if ltb e.time c.started_at then e.time else c.started_at;
        completed_at = if ltb c.completed_at e.time then e.time else c.completed_at;
        event_count = length events;
        result_status = merge_result_status c.result_status (infer_result_status p e);
        health_status = merge_health_status c.health_status (infer_health_status e);
      };
      events = events;
    }

unfoldable pub or_new : Identity → StoredEvent → Option ChangeDetail → ChangeDetail
or_new i e none = new_change i e
or_new i e (some cur) = cur

-- One round of the loop over the events.
unfoldable pub place_event : Platform → StoredEvent → Dict ChangeDetail → Dict ChangeDetail
unfolding or_new
place_event p e out =
    let i = derive_change_identity p e in
    insert i.id (add_event p e (or_new i e (lookup i.id out))) out

unfoldable pub place_events : Platform → List StoredEvent → Dict ChangeDetail → Dict ChangeDetail
place_events p [] out = out
place_events p (e ∷ es) out = place_events p es (place_event p e out)

abbrev pub evidence_window_seconds : ℕ
evidence_window_seconds = 300

-- The variables of the loop of finalizeChange.
pub record HealthScan : Type 0 where
  pub start_health : String
  pub end_health : String
  pub last_health : String
  pub first_degraded : Option ℕ

unfoldable pub scan_event : ℕ → ℕ → StoredEvent → HealthScan → HealthScan
scan_event started completed e s =
    let h = infer_health_status e in
    if h == "unknown" then s else record {
      start_health = if ltb started e.time then s.start_health else h;
      end_health = if ltb e.time completed then s.end_health else h;
      last_health = h;
      first_degraded =
          if not (is_some s.first_degraded) && ltb started e.time && h == "degraded"
          then some e.time
          else s.first_degraded;
    }

unfoldable pub scan_events : ℕ → ℕ → List StoredEvent → HealthScan → HealthScan
scan_events started completed [] s = s
scan_events started completed (e ∷ es) s =
    scan_events started completed es (scan_event started completed e s)

abbrev pub no_health : HealthScan
no_health = record {
  start_health = "unknown";
  end_health = "unknown";
  last_health = "unknown";
  first_degraded = none;
}

-- finalizeChange on sorted events, the first and the last of them given
unfoldable pub finalize_between :
    ℕ → Change → List StoredEvent → StoredEvent → StoredEvent → ChangeDetail
finalize_between now c events first last =
    let scan = scan_events first.time last.time events no_health in
    record {
      change = record c {
        started_at = first.time;
        completed_at = last.time;
        event_count = length events;
        evidence_last_updated_at = last.time;
        evidence_window_seconds = evidence_window_seconds;
        evidence_may_be_incomplete = ltb now (last.time + 300_000_000_000);
        health_at_operation_start = scan.start_health;
        health_after_deploy =
            if scan.end_health == "unknown" then scan.last_health else scan.end_health;
        post_deploy_degradation = record {
          observed = equal_fold scan.start_health "healthy" && is_some scan.first_degraded;
          first_timestamp = scan.first_degraded;
        };
      };
      events = events;
    }

unfoldable pub finalize_sorted : ℕ → Change → List StoredEvent → ChangeDetail
finalize_sorted now c [] = record { change = c; events = [] }
finalize_sorted now c (first ∷ rest) = elim (last? (first ∷ rest)) [
  | none ↦ record { change = c; events = first ∷ rest }
  | some last ↦ finalize_between now c (first ∷ rest) first last
]

unfoldable pub finalize_change : ℕ → ChangeDetail → ChangeDetail
finalize_change now d = finalize_sorted now d.change (sort_stored_events d.events)

unfoldable pub finalize_all : ℕ → Dict ChangeDetail → Dict ChangeDetail
finalize_all now [] = []
finalize_all now ((id, d) ∷ out) = (id, finalize_change now d) ∷ finalize_all now out

-- buildChangesByID
unfoldable pub build_changes_by_id : Platform → ℕ → List StoredEvent → Dict ChangeDetail
unfolding finalize_all
build_changes_by_id p now events = finalize_all now (place_events p events [])

-- The `less` of buildChanges: the latest first, then by id.
unfoldable pub change_less : Change → Change → Bool
change_less a b =
    if eqb a.completed_at b.completed_at
    then str_ltb a.id b.id
    else ltb b.completed_at a.completed_at

unfoldable pub changes_of : List ChangeDetail → List Change
changes_of [] = []
changes_of (d ∷ ds) = d.change ∷ changes_of ds

-- buildChanges
unfoldable pub build_changes : Platform → ℕ → List StoredEvent → List Change
unfolding changes_of
build_changes p now events =
    sort_by change_less (changes_of (values (build_changes_by_id p now events)))
