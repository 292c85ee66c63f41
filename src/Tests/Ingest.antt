-- ===== src/Tests/Ingest.antt =====
-- The registry and the adapters of internal/ingest and internal/providers at concrete webhooks.
use evidra_gitops.Base.{
  ℕ, String, ◌<>◌, ◌≡◌, ◌≢◌, ◌⊎◌, refl, true, false, Option, none, some, List, [], ◌∷◌, any, arith,
  eq_iff, trim_space,
}
use evidra_gitops.Base.Dict.{lookup}
use evidra_gitops.Result.{ok, err, other}
use evidra_gitops.Event.{StoredEvent}
use evidra_gitops.Store
use evidra_gitops.Store.{new_memory_repository, accepted, duplicate}
use evidra_gitops.Api.Auth.{Crypto}
use evidra_gitops.Ingest.{WebhookAdapter, new_registry, provider_key, adapter_for, parse}
use evidra_gitops.Ingest.Registry.{register_all}
use evidra_gitops.Ingest.Shared.{
  normalize_event_type, Libraries, extract_issue_keys, fallback_delivery,
}
use evidra_gitops.Providers.{Hook, hook_event}
use evidra_gitops.Providers.Github
use evidra_gitops.Providers.Gitlab
use evidra_gitops.Providers.Bitbucket
use evidra_gitops.Providers.Bitbucket.{Policy}
use evidra_gitops.Providers.Authorized.{IsPassedBy, IsWithoutSecrets, bitbucket_authorize_sound}
use evidra_gitops.Providers.Parsed.{
  Setup, IsDelivered, IsDated, registry, parse-IsDelivered, hook_event_twice,
}
use evidra_gitops.Tests.Standard.{standard, count}

abbrev libraries : Libraries
libraries = record {
  short_sha256_hex = λ body. "hash";
  find_issue_keys = λ s. s ∷ [];
  decimal = λ n. "7";
}

abbrev crypto : Crypto
crypto = record {
  decode_hex = λ s. some s;
  hmac_sha256 = λ secret body. secret <> body;
  roles_from_jwt = λ r. err (other "invalid jwt token");
}

abbrev pushed : Github.PushEvent
pushed = record {
  repo = some (record { full_name = "org/shop"; name = "shop" });
  pusher = some "ann";
  head_commit = some (record { timestamp = some 5; message = "OPS-1 fix" });
  commits = [];
  after = "abc";
  ref = "refs/heads/main";
}

abbrev setup : Setup
setup = record {
  crypto = crypto;
  github_decoders = record {
    decode_push = λ body. ok pushed;
    decode_pull_request = λ body. err (other "unexpected end of JSON input");
  };
  gitlab_decoders = record {
    decode_push = λ body. err (other "unexpected end of JSON input");
    decode_merge_request = λ body. err (other "unexpected end of JSON input");
  };
  bitbucket_decoders = record {
    decode_push = λ body. err (other "unexpected end of JSON input");
    decode_pull_request = λ body. err (other "unexpected end of JSON input");
  };
  github_secret = "";
  gitlab_token = "";
  bitbucket_secret = "s";
}

abbrev hook : Hook
hook = Github.push_hook standard "d1" pushed

abbrev parsed : List StoredEvent
parsed = hook_event standard libraries 9 hook ∷ []

webhook_parsed : parse (registry standard libraries setup) 9 " GitHub" "Push" "d1" "{}" ≡ ok parsed
unfolding parse adapter_for registry register_all evidra_gitops.Ingest.register lookup
    evidra_gitops.Base.Dict.insert provider_key evidra_gitops.Base.to_lower trim_space
    Github.webhook_adapter Gitlab.webhook_adapter Bitbucket.webhook_adapter Github.new_adapter
    Github.parser Github.parse_as evidra_gitops.Ingest.Shared.normalize_event_type
    evidra_gitops.Api.Auth.behind_scheme evidra_gitops.Argo.Normalize.text_or_empty
    evidra_gitops.Base.Chars.is_space evidra_gitops.Base.Chars.lower_char
    evidra_gitops.Base.Chars.upper_char any evidra_gitops.Base.equal_fold
    evidra_gitops.Base.split_all evidra_gitops.Base.split_once evidra_gitops.Base.to_upper
    evidra_gitops.Base.trim_left evidra_gitops.Base.trim_right evidra_gitops.Ingest.Shared.add_key
    evidra_gitops.Ingest.Shared.add_keys evidra_gitops.Ingest.Shared.clean_delivery
    extract_issue_keys fallback_delivery evidra_gitops.Ingest.Shared.is_id_char
    evidra_gitops.Ingest.Shared.issue_keys_from evidra_gitops.Ingest.Shared.make_id
    evidra_gitops.Ingest.Shared.non_empty evidra_gitops.Ingest.Shared.parse_time_or_now
    evidra_gitops.Ingest.Shared.repo_app evidra_gitops.Ingest.Shared.valid_sha256_signature
    Bitbucket.authorize Bitbucket.authorize_by Bitbucket.first_change Bitbucket.is_pull_request
    Bitbucket.new_adapter Bitbucket.parse_as Bitbucket.parser Bitbucket.pull_request_hook
    Bitbucket.pull_request_type Bitbucket.push_hook Bitbucket.push_ticket_sources Github.authorize
    Github.commit_messages Github.formatted Github.head_commit_timestamp Github.head_message
    Github.header_or Github.pr_ticket_sources Github.pull_request_hook Github.pull_request_type
    Github.push_hook Github.push_ticket_sources Github.repo_full_name Gitlab.authorize
    Gitlab.last_commit_time Gitlab.merge_request_hook Gitlab.merge_request_type Gitlab.new_adapter
    Gitlab.parse_as Gitlab.parser Gitlab.push_hook Gitlab.push_ticket_sources hook_event
    evidra_gitops.Providers.hook_extensions evidra_gitops.Providers.with_tickets
webhook_parsed = refl

parse-IsDelivered_example :
    (e : StoredEvent) × (parsed ≡ e ∷ [])
    × IsDelivered libraries " GitHub" (normalize_event_type "Push") "d1" "{}" e
parse-IsDelivered_example =
    parse-IsDelivered standard libraries setup 9 " GitHub" "Push" "d1" "{}" parsed webhook_parsed

abbrev adapter : String → WebhookAdapter
adapter provider = record {
  provider = provider;
  event_type_header = "X-Type";
  event_id_header = "X-Id";
  authorize = λ headers body. ok tt;
  parse = λ now event_type id body. ok [];
}

abbrev bitbucket : Bitbucket.Adapter
bitbucket = Bitbucket.new_adapter (λ now event_type id body. ok []) "s"

abbrev signed_headers : String → String
signed_headers name = "sha256=s{}"

bitbucket_passes : Bitbucket.authorize crypto bitbucket signed_headers "{}" ≡ ok tt
unfolding Bitbucket.authorize Bitbucket.authorize_by Bitbucket.new_adapter trim_space
    evidra_gitops.Ingest.Shared.valid_sha256_signature evidra_gitops.Api.Auth.behind_scheme
    evidra_gitops.Base.split_once evidra_gitops.Base.equal_fold
bitbucket_passes = refl

bitbucket_authorize_sound_example :
    IsWithoutSecrets crypto signed_headers "{}" bitbucket.policies
    ⊎ IsPassedBy crypto signed_headers "{}" bitbucket.policies
bitbucket_authorize_sound_example =
    bitbucket_authorize_sound crypto signed_headers "{}" bitbucket bitbucket_passes

first_accepted :
    (Store.ingest_event standard 20 (hook_event standard libraries 9 hook) new_memory_repository).0
    ≡ ok (accepted, 20)
unfolding Store.ingest_event Store.is_valid_event hook_event evidra_gitops.Ingest.Shared.make_id
    Github.push_hook evidra_gitops.Ingest.Shared.clean_delivery
    evidra_gitops.Ingest.Shared.is_id_char evidra_gitops.Argo.Normalize.text_or_empty
    evidra_gitops.Ingest.Shared.parse_time_or_now trim_space Github.head_commit_timestamp
    Github.formatted evidra_gitops.Tests.Standard.tally count Store.hashed
    evidra_gitops.Event.Hash.compute_integrity_hash evidra_gitops.Tests.Standard.empty_canonical
    evidra_gitops.Base.Chars.is_space evidra_gitops.Base.Chars.upper_char
    evidra_gitops.Base.Dict.insert lookup any evidra_gitops.Base.Sort.sort_by
    evidra_gitops.Base.split_all evidra_gitops.Base.to_upper evidra_gitops.Base.trim_left
    evidra_gitops.Base.trim_right evidra_gitops.Event.Hash.canonical
    evidra_gitops.Event.Hash.sorted_extensions evidra_gitops.Ingest.Shared.add_key
    evidra_gitops.Ingest.Shared.add_keys extract_issue_keys
    evidra_gitops.Ingest.Shared.issue_keys_from evidra_gitops.Ingest.Shared.non_empty
    evidra_gitops.Ingest.Shared.repo_app Github.commit_messages Github.head_message
    Github.push_ticket_sources Github.repo_full_name evidra_gitops.Providers.hook_extensions
    evidra_gitops.Providers.with_tickets Store.store_event Store.validate_stored_event
    evidra_gitops.Tests.Standard.joined
first_accepted = refl

hook-IsDated : IsDated standard libraries hook
unfolding IsDated count trim_space Github.push_hook Github.head_commit_timestamp Github.formatted
    evidra_gitops.Tests.Standard.tally
hook-IsDated = (5, (λ e. absurd (ground (arith, (eq_iff "11111" "").1 e))), refl)

hook_event_twice_example :
    Store.ingest_event standard 40
      (hook_event standard libraries 30 hook)
      (Store.ingest_event standard 20
        (hook_event standard libraries 9 hook)
        new_memory_repository).1
    ≡ (
      ok (duplicate, 20),
      (Store.ingest_event standard 20
          (hook_event standard libraries 9 hook)
          new_memory_repository).1,
    )
hook_event_twice_example =
    hook_event_twice standard libraries 9 20 30 40 20 hook new_memory_repository hook-IsDated
      first_accepted
