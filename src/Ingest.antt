-- ===== src/Ingest.antt =====
-- internal/ingest: the interfaces of internal/ingest/interfaces.go and the Registry of
-- internal/ingest/registry.go. A nil registry is `none`; `now` is the time that a parser reads.
pub mod Registry
pub mod Shared
use evidra_gitops.Base.{ℕ, String, ◌<>◌, Option, none, some, List, [], ◌∷◌, trim_space, to_lower}
use evidra_gitops.Base.Dict.{Dict, lookup, insert}
use evidra_gitops.Result.{Result, ok, err, other, ◌>>=◌}
use evidra_gitops.Event.{StoredEvent}

-- HeaderReader
abbrev pub HeaderReader : Type 0
HeaderReader = String → String

-- Parser, with the time, the event's type, its id and the body
abbrev pub Parser : Type 0
Parser = ℕ → String → String → String → Result (List StoredEvent)

pub record WebhookAdapter : Type 0 where
  pub provider : String
  pub event_type_header : String
  pub event_id_header : String
  pub authorize : HeaderReader → String → Result (Unit {0})
  pub parse : Parser

abbrev pub Registry : Type 0
Registry = Option (Dict WebhookAdapter)

-- NewRegistry
abbrev pub new_registry : Registry
new_registry = some []

-- The key of a provider's name.
unfoldable pub provider_key : String → String
provider_key provider = to_lower (trim_space provider)

-- Register. A nil adapter is `none`.
unfoldable pub register : Option WebhookAdapter → Registry → Registry
register adapter none = none
register none (some providers) = some providers
register (some adapter) (some providers) =
    some (insert (provider_key adapter.provider) adapter providers)

-- Adapter
unfoldable pub adapter_for : String → Registry → Result WebhookAdapter
adapter_for provider none = err (other "nil registry")
adapter_for provider (some providers) = elim (lookup (provider_key provider) providers) [
  | none ↦ err (other ("unsupported provider: " <> provider))
  | some adapter ↦ ok adapter
]

-- Parse
unfoldable pub parse : Registry → ℕ → String → String → String → String → Result (List StoredEvent)
parse r now provider event_type event_id body =
    adapter_for provider r >>= λ a. a.parse now event_type event_id body

-- ParseFromHeaders
unfoldable pub parse_from_headers :
    Registry → ℕ → String → HeaderReader → String → Result (List StoredEvent)
parse_from_headers r now provider headers body = adapter_for provider r >>= λ a.
    a.parse now (headers a.event_type_header) (headers a.event_id_header) body

-- Authorize
unfoldable pub authorize : Registry → String → HeaderReader → String → Result (Unit {0})
authorize r provider headers body = adapter_for provider r >>= λ a. a.authorize headers body

-- Headers
unfoldable pub headers_of : Registry → String → Result (String × String)
headers_of r provider = adapter_for provider r >>= λ a. ok (a.event_type_header, a.event_id_header)

-- MustHaveProviders
unfoldable pub must_have_providers : Registry → Result (Unit {0})
must_have_providers none = err (other "nil registry")
must_have_providers (some []) = err (other "empty provider registry")
must_have_providers (some (entry ∷ providers)) = ok tt
