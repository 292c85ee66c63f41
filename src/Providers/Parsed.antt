-- ===== src/Providers/Parsed.antt =====
-- The events that the parsers of internal/providers make, and a webhook that is delivered twice.
use evidra_gitops.Base.{
  ℕ, String, true, ◌<>◌, any, if◌then◌else◌, ◌≡◌, ◌≢◌, refl, ap, ◌∙◌, false, some, List, [], ◌∷◌,
  ◌==◌, All, arith, eq_iff, inl, inr, Bool-cases, trim_space,
}
use evidra_gitops.Result.{Result, ok, err, ◌>>=◌}
use evidra_gitops.Event.{StoredEvent}
use evidra_gitops.Event.Platform.{Platform}
use evidra_gitops.Store
use evidra_gitops.Store.{is_valid_event, MemoryRepository, accepted, duplicate}
use evidra_gitops.Store.Ingest.{ingest_event_twice}
use evidra_gitops.Ingest.Shared.{
  Libraries, parse_time_or_now, fallback_delivery, normalize_event_type, make_id, clean_delivery,
  repo_app,
}
use evidra_gitops.Api.Auth.{Crypto}
use evidra_gitops.Ingest.{WebhookAdapter, Registry, new_registry, provider_key, parse, adapter_for}
use evidra_gitops.Ingest.Registry.{register_all, adapter_for-All}
use evidra_gitops.Base.Dict.{Dict, lookup, lookup-insert}
use evidra_gitops.Value.{Value, text}
use evidra_gitops.Providers.{Hook, hook_event, hook_extensions, with_tickets}
use evidra_gitops.Providers.Typed.{
  types_of, has_type, same_type, github_types, gitlab_types, bitbucket_types,
}
use evidra_gitops.Providers.Github
use evidra_gitops.Providers.Gitlab
use evidra_gitops.Providers.Bitbucket

-- The result is one event, made of a hook of the provider and the delivery, of a type of the webhook.
unfoldable pub IsHook :
    Platform → Libraries → ℕ → String → String → String → List StoredEvent → Type 0
IsHook p l now provider event_type delivery es =
    (h : Hook) × (es ≡ hook_event p l now h ∷ [])
    × (h.provider ≡ provider)
    × (h.delivery ≡ delivery)
    × (has_type event_type h.type ≡ true)

-- An event as it is made for a webhook of a provider, up to case and white space, and its delivery.
pub record IsDelivered (l : Libraries) (provider event_type delivery body : String)
    (e : StoredEvent) : Type 0 where
  pub from_provider : provider_key e.source ≡ provider_key provider
  pub named_by :
      e.id
      ≡ "evt_"
        <> e.source
        <> "_"
        <> clean_delivery
            (if trim_space delivery == "" then l.short_sha256_hex body else trim_space delivery)
        <> "_0"
  pub typed_as : has_type event_type e.type ≡ true
  pub repo : String
  pub in_repo : lookup "repo" e.extensions ≡ some (text repo)
  pub about_repo : e.subject ≡ repo_app repo
  pub unhashed : e.integrity_hash ≡ ""

repo_with_tickets :
    (keys : List String) (m : Dict Value) → lookup "repo" (with_tickets keys m) ≡ lookup "repo" m
unfolding with_tickets
repo_with_tickets [] m = refl
repo_with_tickets (key ∷ keys) m = lookup-insert _ "repo" _ _ ∙ lookup-insert _ "repo" _ _

hook_event-IsDelivered :
    (p : Platform) (l : Libraries) (now : ℕ) (provider event_type id body : String) (h : Hook)
    → provider_key h.provider ≡ provider_key provider
    → h.delivery ≡ fallback_delivery l id body
    → has_type event_type h.type ≡ true
    → IsDelivered l provider event_type id body (hook_event p l now h)
unfolding hook_event hook_extensions make_id fallback_delivery
hook_event-IsDelivered p l now provider event_type id body h provided delivered typed_as = record {
  from_provider = provided;
  named_by = ap (λ d. "evt_" <> h.provider <> "_" <> clean_delivery d <> "_0") delivered;
  typed_as = typed_as;
  repo = h.repo;
  in_repo = repo_with_tickets _ _ ∙ (unfold lookup in refl);
  about_repo = refl;
  unhashed = refl;
}

module _ (p : Platform) (l : Libraries) where
  hooked :
      {A : Type 0} (now : ℕ) (provider event_type delivery : String) (hook : A → Hook)
      (r : Result A) (es : List StoredEvent)
      → ((a : A)
          → ((hook a).provider ≡ provider)
            × ((hook a).delivery ≡ delivery)
            × (has_type event_type (hook a).type ≡ true))
      → (do a ← r; ok (hook_event p l now (hook a) ∷ [])) ≡ ok es
      → IsHook p l now provider event_type delivery es
  unfolding IsHook
  hooked now provider event_type delivery hook (ok a) es named h =
      (hook a, ground arith, (named a).0, (named a).1, (named a).2)
  hooked now provider event_type delivery hook (err failure) es named h = absurd (ground arith)

  github_parse_as :
      (d : Github.Decoders) (now : ℕ) (event_type delivery body : String) (es : List StoredEvent)
      → Github.parse_as p l d now event_type delivery body ≡ ok es
      → IsHook p l now "github" event_type delivery es
  unfolding Github.parse_as Github.push_hook Github.pull_request_hook types_of any
  github_parse_as d now event_type delivery body es h = elim (Bool-cases (event_type == "push")) [
    | inl push ↦
        hooked now "github" event_type delivery (Github.push_hook p delivery) (d.decode_push body)
          es (λ a. (refl, refl, same_type event_type "push" "push" push refl)) (ground arith)
    | inr other_type ↦ elim (Bool-cases (event_type == "pull_request")) [
      | inl request ↦
          hooked now "github" event_type delivery (Github.pull_request_hook p l delivery)
            (d.decode_pull_request body) es
            (λ a. (
              refl,
              refl,
              same_type event_type "pull_request" _ request (github_types a.action a.pull_request),
            ))
            (ground arith)
      | inr unknown ↦ absurd (ground arith)
    ]
  ]

  gitlab_parse_as :
      (d : Gitlab.Decoders) (now : ℕ) (event_type delivery body : String) (es : List StoredEvent)
      → Gitlab.parse_as p l d now event_type delivery body ≡ ok es
      → IsHook p l now "gitlab" event_type delivery es
  unfolding Gitlab.parse_as Gitlab.push_hook Gitlab.merge_request_hook types_of any
  gitlab_parse_as d now event_type delivery body es h =
      elim (Bool-cases (event_type == "push hook")) [
        | inl push ↦
            hooked now "gitlab" event_type delivery (Gitlab.push_hook delivery) (d.decode_push body)
              es (λ a. (refl, refl, same_type event_type "push hook" "push" push refl))
              (ground arith)
        | inr other_type ↦ elim (Bool-cases (event_type == "merge request hook")) [
          | inl request ↦
              hooked now "gitlab" event_type delivery (Gitlab.merge_request_hook l delivery)
                (d.decode_merge_request body) es
                (λ a. (
                  refl,
                  refl,
                  same_type event_type "merge request hook" _ request (gitlab_types _),
                ))
                (ground arith)
          | inr unknown ↦ absurd (ground arith)
        ]
      ]

  bitbucket_parse_as :
      (d : Bitbucket.Decoders) (now : ℕ) (event_type delivery body : String) (es : List StoredEvent)
      → Bitbucket.parse_as p l d now event_type delivery body ≡ ok es
      → IsHook p l now "bitbucket" event_type delivery es
  unfolding Bitbucket.parse_as Bitbucket.push_hook Bitbucket.pull_request_hook types_of any
  bitbucket_parse_as d now event_type delivery body es h =
      elim (Bool-cases (event_type == "repo:push")) [
        | inl push ↦
            hooked now "bitbucket" event_type delivery (Bitbucket.push_hook delivery)
              (d.decode_push body) es
              (λ a. (refl, refl, same_type event_type "repo:push" "push" push refl)) (ground arith)
        | inr other_type ↦ elim (Bool-cases (Bitbucket.is_pull_request event_type)) [
          | inl request ↦
              hooked now "bitbucket" event_type delivery
                (Bitbucket.pull_request_hook l event_type delivery) (d.decode_pull_request body) es
                (λ a. (refl, refl, bitbucket_types event_type request)) (ground arith)
          | inr unknown ↦ absurd (ground arith)
        ]
      ]

-- The decoders and secrets of the three adapters.
pub record Setup : Type 0 where
  pub crypto : Crypto
  pub github_decoders : Github.Decoders
  pub gitlab_decoders : Gitlab.Decoders
  pub bitbucket_decoders : Bitbucket.Decoders
  pub github_secret : String
  pub gitlab_token : String
  pub bitbucket_secret : String

module _ (p : Platform) (l : Libraries) (s : Setup) where
  abbrev github : WebhookAdapter
  github =
      let parser = Github.parser p l s.github_decoders in
      Github.webhook_adapter s.crypto parser (Github.new_adapter parser s.github_secret)

  abbrev gitlab : WebhookAdapter
  gitlab =
      let parser = Gitlab.parser p l s.gitlab_decoders in
      Gitlab.webhook_adapter parser (Gitlab.new_adapter parser s.gitlab_token)

  abbrev bitbucket : WebhookAdapter
  bitbucket =
      let parser = Bitbucket.parser p l s.bitbucket_decoders in
      Bitbucket.webhook_adapter s.crypto parser (Bitbucket.new_adapter parser s.bitbucket_secret)

  -- A registry with the three adapters.
  unfoldable pub registry : Registry
  registry = register_all (github ∷ gitlab ∷ bitbucket ∷ []) new_registry

  -- What the parser of an adapter returns is one event of its provider and the delivery.
  unfoldable IsParsing : WebhookAdapter → Type 0
  IsParsing a =
      (now : ℕ) (event_type id body : String) (es : List StoredEvent)
      → a.parse now event_type id body ≡ ok es
      → IsHook p l now a.provider (normalize_event_type event_type) (fallback_delivery l id body) es

  parsers-IsParsing : All IsParsing (github ∷ gitlab ∷ bitbucket ∷ [])
  unfolding IsParsing Github.webhook_adapter Gitlab.webhook_adapter Bitbucket.webhook_adapter
      Github.new_adapter Gitlab.new_adapter Bitbucket.new_adapter Github.parser Gitlab.parser
      Bitbucket.parser
  parsers-IsParsing = (
    (λ now event_type id body es h.
        github_parse_as p l s.github_decoders now (normalize_event_type event_type)
          (fallback_delivery l id body) body es h),
    (
      (λ now event_type id body es h.
          gitlab_parse_as p l s.gitlab_decoders now (normalize_event_type event_type)
            (fallback_delivery l id body) body es h),
      (
        (λ now event_type id body es h.
            bitbucket_parse_as p l s.bitbucket_decoders now (normalize_event_type event_type)
              (fallback_delivery l id body) body es h),
        tt,
      ),
    ),
  )

  answering :
      (r : Result WebhookAdapter) (now : ℕ) (event_type id body : String) (es : List StoredEvent)
      → (r >>= λ a. a.parse now event_type id body) ≡ ok es
      → (a : WebhookAdapter) × (r ≡ ok a) × (a.parse now event_type id body ≡ ok es)
  answering (ok a) now event_type id body es h = (a, refl, h)
  answering (err failure) now event_type id body es h = absurd (ground arith)

  -- A webhook that the registry with the three adapters parses gives exactly one event, made for the
  -- provider of the given name and for the delivery, or for the hash of the body if the delivery is blank:
  -- its id is made of both, its source is the provider, its type is one that the webhook's type allows,
  -- and its subject is the name of the repository that its extensions give. It has no hash yet.
  pub parse-IsDelivered :
      (now : ℕ) (provider event_type id body : String) (es : List StoredEvent)
      → parse registry now provider event_type id body ≡ ok es
      → (e : StoredEvent) × (es ≡ e ∷ [])
        × IsDelivered l provider (normalize_event_type event_type) id body e
  unfolding parse registry IsParsing IsHook
  parse-IsDelivered now provider event_type id body es h =
      let (a, found, parsed) =
        answering (adapter_for provider registry) now event_type id body es h in
      let (parsing, keyed) =
        adapter_for-All IsParsing provider (github ∷ gitlab ∷ bitbucket ∷ []) a parsers-IsParsing
          found in
      let (hook, shape, provided, delivered, typed_as) = parsing now event_type id body es parsed in
      (
        hook_event p l now hook,
        shape,
        hook_event-IsDelivered p l now provider (normalize_event_type event_type) id body hook
            (ap provider_key provided ∙ keyed) delivered typed_as,
      )

module _ (p : Platform) (l : Libraries) where
  -- The time of a hook is written out.
  unfoldable pub IsDated : Hook → Type 0
  IsDated h = (t : ℕ) × (trim_space h.at ≢ "") × (p.parse_nano (trim_space h.at) ≡ some t)

  same_time :
      (now later t : ℕ) (v : String)
      → p.parse_nano (trim_space v) ≡ some t
      → (trim_space v == "") ≡ false
      → parse_time_or_now p later v ≡ parse_time_or_now p now v
  unfolding parse_time_or_now
  same_time now later t v read written =
      rw (written, parse_time_or_now) (rw (read, parse_time_or_now) refl)

  pub hook_event_again :
      (now later : ℕ) (h : Hook) → IsDated h → hook_event p l later h ≡ hook_event p l now h
  unfolding hook_event IsDated
  hook_event_again now later h (t, written, read) =
      rw (same_time now later t h.at read (ground (arith, written, eq_iff (trim_space h.at) "")))
        refl

  unstamped : (now : ℕ) (h : Hook) → (hook_event p l now h).ingested_at ≡ 0
  unfolding hook_event
  unstamped now h = refl

  -- A webhook whose change is dated and whose event was accepted is stored once: delivered again at any
  -- later time, it is answered as a duplicate with the time of the first answer, without a write.
  pub hook_event_twice :
      (now at later again t : ℕ) (h : Hook) (m : MemoryRepository)
      → IsDated h
      → (Store.ingest_event p at (hook_event p l now h) m).0 ≡ ok (accepted, t)
      → Store.ingest_event p again
          (hook_event p l later h)
          (Store.ingest_event p at (hook_event p l now h) m).1
        ≡ (ok (duplicate, t), (Store.ingest_event p at (hook_event p l now h) m).1)
  hook_event_twice now at later again t h m dated accepted_at =
      let e = hook_event p l now h in
      ap (λ e'. Store.ingest_event p again e' (Store.ingest_event p at e m).1)
        (hook_event_again now later h dated)
      ∙ ingest_event_twice p at again t e m (unstamped now h) accepted_at
