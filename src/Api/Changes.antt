-- ===== src/Api/Changes.antt =====
-- parseChangePath and parseChangeQuery of internal/api/handlers_changes.go.
pub mod Handlers
use evidra_gitops.Base.{
  ℕ, String, Bool, not, ◌||◌, Option, none, some, ◌==◌, if◌then◌else◌, trim_space, to_lower,
  contains, cut_prefix, cut_suffix,
}
use evidra_gitops.Base.Int.{ℤ, pos}
use evidra_gitops.Result.{Result, ok, err, other, ◌>>=◌}
use evidra_gitops.Event.Platform.{Platform}
use evidra_gitops.Changes.Filter.{ChangeQuery, ParsedSubject}
use evidra_gitops.App.{parse_subject}
use evidra_gitops.Api.{Request}

-- `strings.TrimPrefix` and `strings.TrimSuffix`
unfoldable pub or_whole : String → Option String → String
or_whole s none = s
or_whole s (some t) = t

abbrev pub trim_suffix : String → String → String
trim_suffix s t = or_whole s (cut_suffix s t)

-- The `view` that parseChangePath returns.
pub data View : Type 0 where
  detail timeline evidence unknown : View

-- parseChangePath behind the prefix; a text has a suffix if it can be cut.
unfoldable pub view_of_tail : String → String × View
view_of_tail tail = if tail == "" then ("", detail) else elim (cut_suffix tail "/timeline") [
  | some id ↦ (trim_suffix id "/", timeline)
  | none ↦ elim (cut_suffix tail "/evidence") [
    | some id ↦ (trim_suffix id "/", evidence)
    | none ↦ if contains tail "/" then ("", unknown) else (tail, detail)
  ]
]

-- parseChangePath
unfoldable pub parse_change_path : String → String × View
unfolding or_whole
parse_change_path path = view_of_tail (trim_space (or_whole path (cut_prefix path "/v1/changes/")))

-- A state parameter is empty, `any`, or one of two words.
unfoldable pub known_state : String → String → String → Bool
known_state one two state = state == "" || state == "any" || state == one || state == two

unfoldable pub checked_states : ChangeQuery → Result ChangeQuery
checked_states q =
    if not (known_state "set" "unset" q.external_change_id_state)
    then err (other "external_change_id_state must be one of any|set|unset")
    else if not (known_state "set" "unset" q.ticket_id_state)
    then err (other "ticket_id_state must be one of any|set|unset")
    else if not (known_state "yes" "no" q.has_approvals)
    then err (other "has_approvals must be one of any|yes|no")
    else ok q

-- The limit; `scan` is `fmt.Sscanf` of one "%d".
unfoldable pub with_limit : (String → Option ℤ) → String → ChangeQuery → Result ChangeQuery
with_limit scan raw_limit q = if raw_limit == "" then ok q else elim (scan raw_limit) [
  | none ↦ err (other "invalid limit")
  | some limit ↦ ok (record q { limit = limit })
]

unfoldable pub query_between : Request → ParsedSubject → ℕ → ℕ → ChangeQuery
query_between r subject from to = record {
  subject = subject;
  from = from;
  to = to;
  q = trim_space (r.query "q");
  result_status = trim_space (r.query "result_status");
  health_status = trim_space (r.query "health_status");
  external_change_id = trim_space (r.query "external_change_id");
  external_change_id_state = to_lower (trim_space (r.query "external_change_id_state"));
  ticket_id = trim_space (r.query "ticket_id");
  ticket_id_state = to_lower (trim_space (r.query "ticket_id_state"));
  approval_reference = trim_space (r.query "approval_reference");
  has_approvals = to_lower (trim_space (r.query "has_approvals"));
  limit = pos 100;
  cursor = trim_space (r.query "cursor");
}

unfoldable pub required : {A : Type 0} → String → Option A → Result A
required text none = err (other text)
required text (some a) = ok a

unfoldable pub required_subject : String → Result ParsedSubject
required_subject raw =
    if raw == "" then err (other "subject is required") else elim (parse_subject raw) [
      | err failure ↦ err (other "subject must be app:environment:cluster")
      | ok subject ↦ ok subject
    ]

-- parseChangeQuery
unfoldable pub parse_change_query : Platform → (String → Option ℤ) → Request → Result ChangeQuery
parse_change_query p scan r = required "invalid from" (p.parse_rfc3339 (r.query "from")) >>= λ from.
    required "invalid to" (p.parse_rfc3339 (r.query "to")) >>= λ to.
    required_subject (trim_space (r.query "subject")) >>= λ subject.
    checked_states (query_between r subject from to) >>= λ q.
    with_limit scan (trim_space (r.query "limit")) q
