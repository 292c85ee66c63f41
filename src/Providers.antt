-- ===== src/Providers.antt =====
-- internal/providers/github, gitlab and bitbucket: the adapters of webhooks, which authorize a request
-- and make an event of its body. What encoding/json makes of a body is a parameter; for GitHub, what
-- the getters of github.com/google/go-github return of it.
pub mod Github
pub mod Gitlab
pub mod Bitbucket
pub mod Kubernetes
pub mod Authorized
pub mod Typed
pub mod Parsed
use evidra_gitops.Base.{ℕ, String, List, [], ◌∷◌, ◌++◌}
use evidra_gitops.Base.Int.{ℤ}
use evidra_gitops.Base.Dict.{Dict, insert}
use evidra_gitops.Value.{Value, text, strings}
use evidra_gitops.Event.{StoredEvent}
use evidra_gitops.Event.Platform.{Platform}
use evidra_gitops.Argo.Normalize.{text_or_empty}
use evidra_gitops.Ingest.Shared.{
  Libraries, make_id, non_empty, parse_time_or_now, repo_app, extract_issue_keys,
}

-- The extensions with the keys of tickets, if there are any.
unfoldable pub with_tickets : List String → Dict Value → Dict Value
with_tickets [] m = m
with_tickets (key ∷ keys) m =
    insert "ticket_key_primary" (text key) (insert "ticket_keys" (strings (key ∷ keys)) m)

-- What the three parsers make of a body before they build its event.
pub record Hook : Type 0 where
  pub provider : String
  pub delivery : String
  pub type : String
  -- the time of the change, as a text
  pub at : String
  pub repo : String
  pub initiator : String
  -- the texts in which tickets are looked for
  pub sources : List String
  -- what stands in the extensions and in the data: the commit, and the branch or the request
  pub changes : Dict Value

unfoldable pub hook_extensions : Libraries → Hook → Dict Value
hook_extensions l h = with_tickets (extract_issue_keys l h.sources) (
    (("cluster", text "unknown")
      ∷ ("namespace", text "unknown")
      ∷ ("initiator", text (non_empty h.initiator "unknown"))
      ∷ ("repo", text h.repo)
      ∷ [])
    ++ h.changes
    ++ ("provider", text h.provider) ∷ [])

-- The event that a parser returns; an error of `json.Marshal` is dropped.
unfoldable pub hook_event : Platform → Libraries → ℕ → Hook → StoredEvent
hook_event p l now h = record {
  id = make_id h.provider h.delivery "0";
  type = h.type;
  source = h.provider;
  subject = repo_app h.repo;
  time = parse_time_or_now p now h.at;
  extensions = hook_extensions l h;
  payload = text_or_empty (p.marshal_object (("repo", text h.repo) ∷ h.changes));
  integrity_hash = "";
  ingested_at = 0;
}
