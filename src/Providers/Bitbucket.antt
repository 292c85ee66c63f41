-- ===== src/Providers/Bitbucket.antt =====
-- internal/providers/bitbucket: the parser of push and pull request hooks, and the adapter.
use evidra_gitops.Base.{
  ℕ, String, ◌<>◌, Bool, true, false, ◌||◌, Option, some, List, [], ◌∷◌, ◌==◌, if◌then◌else◌,
  trim_space,
}
use evidra_gitops.Base.Int.{ℤ}
use evidra_gitops.Result.{Result, ok, err, other, ◌>>=◌}
use evidra_gitops.Value.{text}
use evidra_gitops.Event.{StoredEvent}
use evidra_gitops.Event.Platform.{Platform}
use evidra_gitops.Api.Auth.{Crypto}
use evidra_gitops.Ingest.{HeaderReader, Parser, WebhookAdapter}
use evidra_gitops.Ingest.Shared.{
  Libraries, non_empty, normalize_event_type, fallback_delivery, valid_sha256_signature,
}
use evidra_gitops.Providers.{Hook, hook_event}
use evidra_gitops.Providers.Github.{parser_or}

pub record Repository : Type 0 where
  pub name : String
  pub full_name : String

-- The `new` of a change.
pub record Change : Type 0 where
  pub name : String
  pub hash : String
  pub date : String
  pub message : String

pub record PushPayload : Type 0 where
  pub repository : Repository
  pub display_name : String
  pub changes : List Change

pub record PullRequest : Type 0 where
  pub id : ℤ
  pub created_on : String
  pub updated_on : String
  pub title : String
  pub description : String
  pub branch : String
  pub commit : String
  pub source : Repository

pub record PullRequestPayload : Type 0 where
  pub repository : Repository
  pub display_name : String
  pub pull_request : PullRequest

-- `json.Unmarshal` of a body
pub record Decoders : Type 0 where
  pub decode_push : String → Result PushPayload
  pub decode_pull_request : String → Result PullRequestPayload

-- bitbucketPushTicketSources
unfoldable pub push_ticket_sources : List Change → List String
push_ticket_sources [] = []
push_ticket_sources (c ∷ changes) = c.name ∷ c.message ∷ push_ticket_sources changes

-- The first change of a push, whose fields are read; empty texts if there is none.
unfoldable pub first_change : List Change → Change
first_change [] = record { name = ""; hash = ""; date = ""; message = "" }
first_change (c ∷ changes) = c

-- The types of pull request hooks that Parse takes.
unfoldable pub is_pull_request : String → Bool
is_pull_request event_type =
    event_type == "pullrequest:created"
    || event_type == "pullrequest:fulfilled"
    || event_type == "pullrequest:rejected"
    || event_type == "pullrequest:updated"

unfoldable pub pull_request_type : String → String
pull_request_type event_type =
    if event_type == "pullrequest:created"
    then "pull_request_opened"
    else if event_type == "pullrequest:fulfilled"
    then "pull_request_merged"
    else if event_type == "pullrequest:rejected"
    then "pull_request_closed"
    else "pull_request_updated"

abbrev pub repo_name : Repository → String
repo_name r = non_empty r.full_name r.name

unfoldable pub push_hook : String → PushPayload → Hook
push_hook delivery e =
    let change = first_change e.changes in
    record {
      provider = "bitbucket";
      delivery = delivery;
      type = "push";
      at = change.date;
      repo = repo_name e.repository;
      initiator = e.display_name;
      sources = push_ticket_sources e.changes;
      changes = ("commit_sha", text change.hash) ∷ ("ref", text change.name) ∷ [];
    }

unfoldable pub pull_request_hook : Libraries → String → String → PullRequestPayload → Hook
pull_request_hook l event_type delivery e =
    let pr = e.pull_request in
    record {
      provider = "bitbucket";
      delivery = delivery;
      type = pull_request_type event_type;
      at = non_empty pr.updated_on pr.created_on;
      repo = if repo_name e.repository == "" then repo_name pr.source else repo_name e.repository;
      initiator = e.display_name;
      sources = pr.title ∷ pr.description ∷ pr.branch ∷ [];
      changes = ("commit_sha", text pr.commit) ∷ ("pr_id", text (l.decimal pr.id)) ∷ [];
    }

module _ (p : Platform) (l : Libraries) (d : Decoders) where
  -- The `switch` of Parse, on the normalized type.
  unfoldable pub parse_as : ℕ → String → String → String → Result (List StoredEvent)
  parse_as now event_type delivery body =
      if event_type == "repo:push"
      then (do e ← d.decode_push body; ok (hook_event p l now (push_hook delivery e) ∷ []))
      else if is_pull_request event_type
      then (do
        e ← d.decode_pull_request body
        ok (hook_event p l now (pull_request_hook l event_type delivery e) ∷ []))
      else err (other ("unsupported bitbucket event: " <> event_type))

  -- Parse of the Parser
  unfoldable pub parser : Parser
  parser now event_type delivery body =
      parse_as now (normalize_event_type event_type) (fallback_delivery l delivery body) body

-- HMACPolicy
pub record Policy : Type 0 where
  pub header : String
  pub secret : String

-- Adapter. A nil Parser is `none`.
pub record Adapter : Type 0 where
  pub parser : Option Parser
  pub policies : List Policy

-- NewAdapter
unfoldable pub new_adapter : Parser → String → Adapter
new_adapter default secret = record {
  parser = some default;
  policies =
      record { header = "X-Hub-Signature"; secret = secret }
      ∷ record { header = "X-Hub-Signature-256"; secret = secret }
      ∷ [];
}

-- The loop over the policies, with whether one of those before has a secret.
unfoldable pub authorize_by :
    Crypto → HeaderReader → String → Bool → List Policy → Result (Unit {0})
authorize_by c headers body true [] = err (other "invalid bitbucket webhook signature")
authorize_by c headers body false [] = ok tt
authorize_by c headers body has_secret (policy ∷ policies) =
    let next = authorize_by c headers body has_secret policies in
    let next_secret = authorize_by c headers body true policies in
    let header = trim_space (headers (trim_space policy.header)) in
    if trim_space policy.secret == ""
    then next
    else if header == ""
    then next_secret
    else if valid_sha256_signature c (trim_space policy.secret) body header
    then ok tt
    else err (other "invalid bitbucket webhook signature")

-- Authorize; the loop over no policies returns nil as well.
unfoldable pub authorize : Crypto → Adapter → HeaderReader → String → Result (Unit {0})
authorize c a headers body = authorize_by c headers body false a.policies

-- The adapter as a WebhookAdapter; `default` is Parser{}.
unfoldable pub webhook_adapter : Crypto → Parser → Adapter → WebhookAdapter
webhook_adapter c default a = record {
  provider = "bitbucket";
  event_type_header = "X-Event-Key";
  event_id_header = "X-Request-UUID";
  authorize = authorize c a;
  parse = parser_or default a.parser;
}
