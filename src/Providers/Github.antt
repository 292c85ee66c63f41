-- ===== src/Providers/Github.antt =====
-- internal/providers/github: the parser of push and pull request events, and the adapter.
use evidra_gitops.Base.{
  ℕ, String, ◌<>◌, Bool, false, Option, none, some, List, [], ◌∷◌, ◌++◌, ◌==◌, if◌then◌else◌,
  trim_space, to_lower,
}
use evidra_gitops.Base.Int.{ℤ, pos}
use evidra_gitops.Result.{Result, ok, err, other, ◌>>=◌}
use evidra_gitops.Value.{text}
use evidra_gitops.Event.{StoredEvent}
use evidra_gitops.Event.Platform.{Platform}
use evidra_gitops.Argo.Normalize.{text_or_empty}
use evidra_gitops.Api.Auth.{Crypto}
use evidra_gitops.Ingest.{HeaderReader, Parser, WebhookAdapter}
use evidra_gitops.Ingest.Shared.{
  Libraries, non_empty, normalize_event_type, fallback_delivery, valid_sha256_signature,
}
use evidra_gitops.Providers.{Hook, hook_event}

-- What the getters of go-github return of a repository, a commit and the two events; a pointer that is
-- nil is `none`.
pub record Names : Type 0 where
  pub full_name : String
  pub name : String

pub record HeadCommit : Type 0 where
  pub timestamp : Option ℕ
  pub message : String

pub record PushEvent : Type 0 where
  pub repo : Option Names
  pub pusher : Option String
  pub head_commit : Option HeadCommit
  -- the messages of the commits
  pub commits : List (Option String)
  pub after : String
  pub ref : String

pub record PullRequest : Type 0 where
  pub merged : Bool
  pub merge_commit_sha : String
  pub head_sha : String
  pub updated_at : Option ℕ
  pub created_at : Option ℕ
  pub number : ℤ
  pub title : String
  pub body : String
  pub head_ref : String
  pub base_ref : String

pub record PullRequestEvent : Type 0 where
  pub repo : Option Names
  pub action : String
  pub pull_request : Option PullRequest
  pub sender : String

-- `json.Unmarshal` of a body
pub record Decoders : Type 0 where
  pub decode_push : String → Result PushEvent
  pub decode_pull_request : String → Result PullRequestEvent

-- repoFullNameFromRepo and repoFullNameFromPush
unfoldable pub repo_full_name : Option Names → String
repo_full_name none = "unknown"
repo_full_name (some repo) = non_empty repo.full_name repo.name

unfoldable pub formatted : Platform → Option ℕ → String
formatted p none = ""
formatted p (some t) = p.format_rfc3339 t

-- headCommitTimestamp
unfoldable pub head_commit_timestamp : Platform → Option HeadCommit → String
head_commit_timestamp p none = ""
head_commit_timestamp p (some commit) = formatted p commit.timestamp

unfoldable pub commit_messages : List (Option String) → List String
commit_messages [] = []
commit_messages (none ∷ commits) = commit_messages commits
commit_messages (some message ∷ commits) = message ∷ commit_messages commits

unfoldable pub head_message : Option HeadCommit → List String
head_message none = []
head_message (some commit) = commit.message ∷ []

-- pushTicketSources
unfoldable pub push_ticket_sources : PushEvent → List String
push_ticket_sources e = e.ref ∷ head_message e.head_commit ++ commit_messages e.commits

-- prTicketSources
unfoldable pub pr_ticket_sources : Option PullRequest → List String
pr_ticket_sources none = []
pr_ticket_sources (some pr) = pr.title ∷ pr.body ∷ pr.head_ref ∷ pr.base_ref ∷ []

abbrev pub was_merged : Option PullRequest → Bool
was_merged none = false
was_merged (some pr) = pr.merged

-- The type of a pull request's event, by its action.
unfoldable pub pull_request_type : String → Option PullRequest → String
pull_request_type action pr =
    if to_lower action == "opened"
    then "pull_request_opened"
    else if to_lower action == "closed"
    then if was_merged pr then "pull_request_merged" else "pull_request_closed"
    else "pull_request_updated"

abbrev pub commit_of : Option PullRequest → String
commit_of none = ""
commit_of (some pr) = non_empty pr.merge_commit_sha pr.head_sha

abbrev pub at_of : Platform → Option PullRequest → String
at_of p none = non_empty "" ""
at_of p (some pr) = non_empty (formatted p pr.updated_at) (formatted p pr.created_at)

abbrev pub number_of : Option PullRequest → ℤ
number_of none = pos 0
number_of (some pr) = pr.number

unfoldable pub push_hook : Platform → String → PushEvent → Hook
push_hook p delivery e = record {
  provider = "github";
  delivery = delivery;
  type = "push";
  at = head_commit_timestamp p e.head_commit;
  repo = repo_full_name e.repo;
  initiator = text_or_empty e.pusher;
  sources = push_ticket_sources e;
  changes = ("commit_sha", text e.after) ∷ ("ref", text e.ref) ∷ [];
}

unfoldable pub pull_request_hook : Platform → Libraries → String → PullRequestEvent → Hook
pull_request_hook p l delivery e = record {
  provider = "github";
  delivery = delivery;
  type = pull_request_type e.action e.pull_request;
  at = at_of p e.pull_request;
  repo = repo_full_name e.repo;
  initiator = e.sender;
  sources = pr_ticket_sources e.pull_request;
  changes =
      ("commit_sha", text (commit_of e.pull_request))
      ∷ ("pr_id", text (l.decimal (number_of e.pull_request)))
      ∷ [];
}

module _ (p : Platform) (l : Libraries) (d : Decoders) where
  -- The `switch` of Parse, on the normalized type.
  unfoldable pub parse_as : ℕ → String → String → String → Result (List StoredEvent)
  parse_as now event_type delivery body =
      if event_type == "push"
      then (do e ← d.decode_push body; ok (hook_event p l now (push_hook p delivery e) ∷ []))
      else if event_type == "pull_request"
      then (do
        e ← d.decode_pull_request body
        ok (hook_event p l now (pull_request_hook p l delivery e) ∷ []))
      else err (other ("unsupported github event: " <> event_type))

  -- Parse of the Parser
  unfoldable pub parser : Parser
  parser now event_type delivery body =
      parse_as now (normalize_event_type event_type) (fallback_delivery l delivery body) body

-- Adapter. A nil Parser is `none`.
pub record Adapter : Type 0 where
  pub parser : Option Parser
  pub signature_header : String
  pub secret : String

-- nonEmpty
unfoldable pub header_or : String → String → String
header_or v fallback = if trim_space v == "" then fallback else v

-- NewAdapter
unfoldable pub new_adapter : Parser → String → Adapter
new_adapter default secret = record {
  parser = some default;
  signature_header = "X-Hub-Signature-256";
  secret = secret;
}

-- Authorize
unfoldable pub authorize : Crypto → Adapter → HeaderReader → String → Result (Unit {0})
authorize c a headers body =
    if trim_space a.secret == ""
    then ok tt
    else if valid_sha256_signature c (trim_space a.secret) body
        (trim_space (headers (header_or a.signature_header "X-Hub-Signature-256")))
    then ok tt
    else err (other "invalid github webhook signature")

abbrev pub parser_or : Parser → Option Parser → Parser
parser_or default none = default
parser_or default (some parser) = parser

-- The adapter as a WebhookAdapter; `default` is Parser{}.
unfoldable pub webhook_adapter : Crypto → Parser → Adapter → WebhookAdapter
webhook_adapter c default a = record {
  provider = "github";
  event_type_header = "X-GitHub-Event";
  event_id_header = "X-GitHub-Delivery";
  authorize = authorize c a;
  parse = parser_or default a.parser;
}
