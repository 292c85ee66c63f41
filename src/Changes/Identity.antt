-- ===== src/Changes/Identity.antt =====
-- deriveChangeIdentity of internal/app/changes.go and what it calls.
use evidra_gitops.Base.{
  String, ◌<>◌, not, ◌&&◌, ◌||◌, List, [], ◌∷◌, ◌==◌, if◌then◌else◌, trim_space, to_lower,
}
use evidra_gitops.Base.Dict.{Dict}
use evidra_gitops.Value.{Value}
use evidra_gitops.Event.{StoredEvent, extension_string, extension_bool}
use evidra_gitops.Event.Platform.{Platform}

-- firstExtension and firstMapString: the first key with a text that is not blank.
unfoldable pub first_extension : Dict Value → List String → String
first_extension extensions [] = ""
first_extension extensions (k ∷ ks) =
    let rest = first_extension extensions ks in
    if extension_string extensions k == "" then rest else extension_string extensions k

-- The `switch` on the source of an event.
unfoldable pub provider_of_source : String → String
provider_of_source source =
    let s = to_lower (trim_space source) in
    if s == "argocd" || s == "argo"
    then "argo"
    else if s == "github_actions" || s == "gha"
    then "gha"
    else if s == "gitlab_ci" || s == "gitlabci"
    then "gitlabci"
    else if s == "jenkins"
    then "jenkins"
    else if s == ""
    then "generic"
    else s

abbrev pub operation_keys : List String
operation_keys = "operation_id" ∷ "history_id" ∷ "deploy_id" ∷ "sync_revision" ∷ []

unfoldable pub normalize_primary_provider : String → Dict Value → String
normalize_primary_provider source extensions =
    if extension_bool extensions "supporting_observation"
      && not (first_extension extensions operation_keys == "")
    then "argo"
    else if not (extension_string extensions "primary_provider" == "")
    then to_lower (extension_string extensions "primary_provider")
    else provider_of_source source

abbrev pub reference_keys : List String
reference_keys =
    "primary_reference" ∷ "operation_id" ∷ "history_id" ∷ "deploy_id" ∷ "pipeline_id" ∷ "run_id"
    ∷ "job_id" ∷ []

abbrev pub revision_keys : List String
revision_keys = "revision" ∷ "sync_revision" ∷ "commit_sha" ∷ []

pub record Identity : Type 0 where
  pub id : String
  pub provider : String
  pub reference : String
  pub revision : String

unfoldable pub stable_hash : Platform → String → String
stable_hash p input = p.sha256_hex input

unfoldable pub subject_id : StoredEvent → String
subject_id e = to_lower (
    e.subject
    <> ":"
    <> extension_string e.extensions "namespace"
    <> ":"
    <> extension_string e.extensions "cluster")

-- deriveChangeIdentity
unfoldable pub derive_change_identity : Platform → StoredEvent → Identity
unfolding stable_hash
derive_change_identity p e =
    let provider = normalize_primary_provider e.source e.extensions in
    let reference = first_extension e.extensions reference_keys in
    let revision = first_extension e.extensions revision_keys in
    let scope = subject_id e <> ":" <> provider <> ":" in
    let input =
      if not (reference == "")
      then scope <> reference
      else scope <> revision <> ":" <> p.format_rfc3339 e.time in
    record {
      id = "chg_" <> stable_hash p input;
      provider = provider;
      reference = reference;
      revision = revision;
    }
