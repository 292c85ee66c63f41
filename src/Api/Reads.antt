-- ===== src/Api/Reads.antt =====
-- internal/api/handlers_query.go: handleTimeline, handleEventByID, handleSubjects and
-- handleCorrelations. They change nothing but the rate limiter. `scan` is `fmt.Sscanf` of one "%d".
pub mod Sound
use evidra_gitops.Base.{
  ℕ, String, ◌⊎◌, inl, inr, Bool, true, false, not, ◌&&◌, ◌||◌, Option, none, some, List, ◌==◌,
  if◌then◌else◌, trim_space, equal_fold, cut_prefix,
}
use evidra_gitops.Base.Int.{ℤ, pos}
use evidra_gitops.Result.{Result, ok, err}
use evidra_gitops.Event.{StoredEvent}
use evidra_gitops.Event.Platform.{Platform}
use evidra_gitops.Store.Query.{TimelineQuery, TimelineResult, SubjectInfo}
use evidra_gitops.App.{Repository, parse_subject}
use evidra_gitops.Changes.Filter.{ParsedSubject}
use evidra_gitops.Api.{Request, Failure}
use evidra_gitops.Api.Limiter.{AuthRateLimiter}
use evidra_gitops.Api.Auth.{Crypto, AuthConfig, authorize_read}
use evidra_gitops.Api.Guard.{bad_request, store_answer, guarded}
use evidra_gitops.Api.Changes.{or_whole}

-- The answer of handleTimeline.
pub record TimelinePage : Type 0 where
  pub items : List StoredEvent
  pub limit : ℤ
  pub next_cursor : String

-- The limit of the query: a text that is no number is passed over.
unfoldable pub limit_param : (String → Option ℤ) → String → ℤ
limit_param scan raw = if raw == "" then pos 0 else elim (scan raw) [ none ↦ pos 0 | some n ↦ n ]

-- The query without its subject.
unfoldable pub query_from : (String → Option ℤ) → Request → ℕ → ℕ → TimelineQuery
query_from scan r from to = record {
  subject = "";
  cluster = "";
  namespace = "";
  from = from;
  to = to;
  source = r.query "source";
  type = r.query "type";
  correlation_key = r.query "correlation_key";
  correlation_value = r.query "correlation_value";
  include_supporting = equal_fold (trim_space (r.query "include_supporting")) "true";
  limit = limit_param scan (r.query "limit");
  cursor = r.query "cursor";
}

abbrev pub about : ParsedSubject → TimelineQuery → TimelineQuery
about subject q = record q {
  subject = subject.app;
  namespace = subject.environment;
  cluster = subject.cluster;
}

unfoldable pub with_subject : String → TimelineQuery → TimelineQuery ⊎ Failure
with_subject raw q = if raw == "" then inl q else elim (parse_subject raw) [
  | err failure ↦ inr (bad_request "INVALID_SUBJECT")
  | ok subject ↦ inl (about subject q)
]

-- A query has to name a subject, or the key and the value of a correlation.
unfoldable pub is_scoped : TimelineQuery → Bool
is_scoped q = not (q.subject == "" && (q.correlation_key == "" || q.correlation_value == ""))

unfoldable pub scoped : TimelineQuery ⊎ Failure → TimelineQuery ⊎ Failure
scoped (inr failure) = inr failure
scoped (inl q) = if is_scoped q then inl q else inr (bad_request "SCOPE_REQUIRED")

-- The query that handleTimeline makes of a request, or its answer.
unfoldable pub timeline_params : Platform → (String → Option ℤ) → Request → TimelineQuery ⊎ Failure
timeline_params p scan r = elim (p.parse_rfc3339 (r.query "from")) [
  | none ↦ inr (bad_request "INVALID_FROM")
  | some from ↦ elim (p.parse_rfc3339 (r.query "to")) [
    | none ↦ inr (bad_request "INVALID_TO")
    | some to ↦ scoped (with_subject (r.query "subject") (query_from scan r from to))
  ]
]

unfoldable pub page_of : TimelineQuery → TimelineResult ⊎ Failure → TimelinePage ⊎ Failure
page_of q (inr failure) = inr failure
page_of q (inl res) =
    inl (record { items = res.items; limit = q.limit; next_cursor = res.next_cursor })

module _ {R : Type 0} (p : Platform) (repository : Repository R) where
  unfoldable pub timeline_answer : TimelineQuery ⊎ Failure → R → TimelinePage ⊎ Failure
  timeline_answer (inr failure) repo = inr failure
  timeline_answer (inl q) repo = page_of q (store_answer (repository.query_timeline q repo))

  module _ (c : Crypto) (auth : AuthConfig) (now_window : ℕ) (r : Request)
      (l : Option AuthRateLimiter) (repo : R) where
    -- handleTimeline
    unfoldable pub handle_timeline :
        (String → Option ℤ) → (TimelinePage ⊎ Failure) × Option AuthRateLimiter
    handle_timeline scan =
        guarded "GET" r (authorize_read c auth now_window r l) l
          (timeline_answer (timeline_params p scan r) repo)

    -- handleEventByID
    unfoldable pub handle_event_by_id : (StoredEvent ⊎ Failure) × Option AuthRateLimiter
    handle_event_by_id = guarded "GET" r (authorize_read c auth now_window r l) l (
        store_answer
          (repository.get_event (or_whole r.path (cut_prefix r.path "/v1/events/")) repo))

    -- handleSubjects
    unfoldable pub handle_subjects : (List SubjectInfo ⊎ Failure) × Option AuthRateLimiter
    handle_subjects =
        guarded "GET" r (authorize_read c auth now_window r l) l
          (store_answer (repository.list_subjects repo))

    -- handleCorrelations
    unfoldable pub handle_correlations : (List StoredEvent ⊎ Failure) × Option AuthRateLimiter
    handle_correlations = guarded "GET" r (authorize_read c auth now_window r l) l (
        store_answer (
          repository.events_by_extension (or_whole r.path (cut_prefix r.path "/v1/correlations/"))
            (r.query "value") (pos 100) repo))
