-- ===== src/Providers/Gitlab.antt =====
-- internal/providers/gitlab: the parser of push and merge request hooks, and the adapter.
use evidra_gitops.Base.{
  ℕ, String, ◌<>◌, ◌||◌, Option, some, List, [], ◌∷◌, ◌==◌, if◌then◌else◌, trim_space, to_lower,
  map,
}
use evidra_gitops.Base.Int.{ℤ}
use evidra_gitops.Result.{Result, ok, err, other, ◌>>=◌}
use evidra_gitops.Value.{text}
use evidra_gitops.Event.{StoredEvent}
use evidra_gitops.Event.Platform.{Platform}
use evidra_gitops.Ingest.{HeaderReader, Parser, WebhookAdapter}
use evidra_gitops.Ingest.Shared.{Libraries, non_empty, normalize_event_type, fallback_delivery}
use evidra_gitops.Providers.{Hook, hook_event}
use evidra_gitops.Providers.Github.{header_or, parser_or}

pub record Project : Type 0 where
  pub name : String
  pub path_with_namespace : String

pub record Commit : Type 0 where
  pub timestamp : String
  pub message : String

pub record PushPayload : Type 0 where
  pub ref : String
  pub checkout_sha : String
  pub event_created_at : String
  pub user_username : String
  pub project : Project
  pub commits : List Commit

pub record LastCommit : Type 0 where
  pub id : String
  pub message : String

pub record ObjectAttributes : Type 0 where
  pub action : String
  pub iid : ℤ
  pub merge_commit_sha : String
  pub created_at : String
  pub updated_at : String
  pub title : String
  pub description : String
  pub source_branch : String
  pub target_branch : String
  pub last_commit : LastCommit

pub record MergeRequestPayload : Type 0 where
  pub project : Project
  pub username : String
  pub object_attributes : ObjectAttributes

-- `json.Unmarshal` of a body
pub record Decoders : Type 0 where
  pub decode_push : String → Result PushPayload
  pub decode_merge_request : String → Result MergeRequestPayload

-- lastCommitTime: from the last commit on, the first time that is not blank
unfoldable pub last_commit_time : List Commit → String → String
last_commit_time [] fallback = fallback
last_commit_time (c ∷ commits) fallback =
    last_commit_time commits (if trim_space c.timestamp == "" then fallback else c.timestamp)

-- gitlabPushTicketSources
unfoldable pub push_ticket_sources : PushPayload → List String
push_ticket_sources e = e.ref ∷ map (λ (c : Commit). c.message) e.commits

-- The type of a merge request's event, by its action.
unfoldable pub merge_request_type : String → String
merge_request_type action =
    if to_lower action == "open" || to_lower action == "opened"
    then "merge_request_opened"
    else if to_lower action == "merge" || to_lower action == "merged"
    then "merge_request_merged"
    else if to_lower action == "close" || to_lower action == "closed"
    then "merge_request_closed"
    else "merge_request_updated"

unfoldable pub push_hook : String → PushPayload → Hook
push_hook delivery e = record {
  provider = "gitlab";
  delivery = delivery;
  type = "push";
  at = last_commit_time e.commits e.event_created_at;
  repo = non_empty e.project.path_with_namespace e.project.name;
  initiator = e.user_username;
  sources = push_ticket_sources e;
  changes = ("commit_sha", text e.checkout_sha) ∷ ("ref", text e.ref) ∷ [];
}

unfoldable pub merge_request_hook : Libraries → String → MergeRequestPayload → Hook
merge_request_hook l delivery e =
    let o = e.object_attributes in
    record {
      provider = "gitlab";
      delivery = delivery;
      type = merge_request_type o.action;
      at = non_empty o.updated_at o.created_at;
      repo = non_empty e.project.path_with_namespace e.project.name;
      initiator = e.username;
      sources =
          o.title ∷ o.description ∷ o.source_branch ∷ o.target_branch ∷ o.last_commit.message ∷ [];
      changes =
          ("commit_sha", text (non_empty o.merge_commit_sha o.last_commit.id))
          ∷ ("pr_id", text (l.decimal o.iid))
          ∷ [];
    }

module _ (p : Platform) (l : Libraries) (d : Decoders) where
  -- The `switch` of Parse, on the normalized type.
  unfoldable pub parse_as : ℕ → String → String → String → Result (List StoredEvent)
  parse_as now event_type delivery body =
      if event_type == "push hook"
      then (do e ← d.decode_push body; ok (hook_event p l now (push_hook delivery e) ∷ []))
      else if event_type == "merge request hook"
      then (do
        e ← d.decode_merge_request body
        ok (hook_event p l now (merge_request_hook l delivery e) ∷ []))
      else err (other ("unsupported gitlab event: " <> event_type))

  -- Parse of the Parser
  unfoldable pub parser : Parser
  parser now event_type delivery body =
      parse_as now (normalize_event_type event_type) (fallback_delivery l delivery body) body

-- Adapter. A nil Parser is `none`.
pub record Adapter : Type 0 where
  pub parser : Option Parser
  pub token_header : String
  pub token : String

-- NewAdapter
unfoldable pub new_adapter : Parser → String → Adapter
new_adapter default token = record {
  parser = some default;
  token_header = "X-Gitlab-Token";
  token = token;
}

-- Authorize
unfoldable pub authorize : Adapter → HeaderReader → String → Result (Unit {0})
authorize a headers body =
    if trim_space a.token == ""
    then ok tt
    else if trim_space (headers (header_or a.token_header "X-Gitlab-Token")) == trim_space a.token
    then ok tt
    else err (other "invalid gitlab webhook token")

-- The adapter as a WebhookAdapter; `default` is Parser{}.
unfoldable pub webhook_adapter : Parser → Adapter → WebhookAdapter
webhook_adapter default a = record {
  provider = "gitlab";
  event_type_header = "X-Gitlab-Event";
  event_id_header = "X-Gitlab-Event-UUID";
  authorize = authorize a;
  parse = parser_or default a.parser;
}
