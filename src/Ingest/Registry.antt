-- ===== src/Ingest/Registry.antt =====
-- What the Registry of internal/ingest/registry.go finds after adapters were registered.
use mathlib.Core.Option.{some-injective}
use mathlib.Core.Path.{subst}
use evidra_gitops.Base.{
  String, ◌<>◌, ◌≡◌, refl, sym, ap, ◌∙◌, Option, none, some, List, [], ◌∷◌, ◌==◌, arith, inl, inr,
  if◌then◌else◌, Bool-cases, Option-cases, All, eq_iff,
}
use evidra_gitops.Base.Dict.{Dict, lookup, insert, lookup-insert}
use evidra_gitops.Result.{Result, ok, err, other}
use evidra_gitops.Ingest.{
  WebhookAdapter, Registry, new_registry, provider_key, register, adapter_for,
}

-- What a lookup returns for a name.
unfoldable pub found_or_unsupported : String → Option WebhookAdapter → Result WebhookAdapter
found_or_unsupported provider none = err (other ("unsupported provider: " <> provider))
found_or_unsupported provider (some a) = ok a

opened :
    (provider : String) (providers : Dict WebhookAdapter)
    → adapter_for provider (some providers)
      ≡ found_or_unsupported provider (lookup (provider_key provider) providers)
unfolding adapter_for found_or_unsupported
opened provider providers = elim (Option-cases (lookup (provider_key provider) providers)) [
  | inl absent ↦ rw (absent, adapter_for)
  | inr (a, present) ↦ rw (present, adapter_for)
]

-- A registered adapter is found under each name that is its provider's up to case and outer white
-- space; every other name is answered as before.
pub adapter_for-register :
    (provider : String) (a : WebhookAdapter) (providers : Dict WebhookAdapter)
    → adapter_for provider (register (some a) (some providers)) ≡ (
        if provider_key a.provider == provider_key provider
        then ok a
        else adapter_for provider (some providers))
unfolding register found_or_unsupported
adapter_for-register provider a providers =
    opened provider (insert (provider_key a.provider) a providers)
    ∙ ap (found_or_unsupported provider)
        (lookup-insert (provider_key a.provider) (provider_key provider) a providers)
    ∙ elim (Bool-cases (provider_key a.provider == provider_key provider)) [
      | inl same ↦ rw same
      | inr apart ↦ rw apart (sym (opened provider providers))
    ]

-- The adapters in the order of their registration.
unfoldable pub register_all : List WebhookAdapter → Registry → Registry
register_all [] r = r
register_all (a ∷ adapters) r = register_all adapters (register (some a) r)

-- Of several adapters, the last one of a name wins.
unfoldable pub last_named : String → List WebhookAdapter → Option WebhookAdapter
last_named provider [] = none
last_named provider (a ∷ adapters) = elim (last_named provider adapters) [
  | some b ↦ some b
  | none ↦ if provider_key a.provider == provider_key provider then some a else none
]

abbrev or_else : Option WebhookAdapter → Result WebhookAdapter → Result WebhookAdapter
or_else none r = r
or_else (some a) r = ok a

register-some :
    (a : WebhookAdapter) (providers : Dict WebhookAdapter)
    → register (some a) (some providers) ≡ some (insert (provider_key a.provider) a providers)
unfolding register
register-some a providers = refl

after_register :
    (provider : String) (a : WebhookAdapter) (providers : Dict WebhookAdapter)
    → adapter_for provider (some (insert (provider_key a.provider) a providers))
      ≡ or_else
          (if provider_key a.provider == provider_key provider then some a else none)
          (adapter_for provider (some providers))
after_register provider a providers =
    ap (adapter_for provider) (sym (register-some a providers))
    ∙ adapter_for-register provider a providers
    ∙ elim (Bool-cases (provider_key a.provider == provider_key provider)) [
      | inl same ↦ rw same
      | inr apart ↦ rw apart
    ]

registered :
    (provider : String) (adapters : List WebhookAdapter) (providers : Dict WebhookAdapter)
    → adapter_for provider (register_all adapters (some providers))
      ≡ or_else (last_named provider adapters) (adapter_for provider (some providers))
unfolding register_all last_named
registered provider [] providers = refl
registered provider (a ∷ adapters) providers =
    ap (λ r. adapter_for provider (register_all adapters r)) (register-some a providers)
    ∙ registered provider adapters (insert (provider_key a.provider) a providers)
    ∙ elim (Option-cases (last_named provider adapters)) [
      | inr (b, later) ↦ rw (later, last_named) refl
      | inl none_later ↦ rw (none_later, last_named) (after_register provider a providers)
    ]

-- A registry that was filled with adapters answers a name with the last of them that has it, up to
-- case and outer white space, and reports an unsupported provider if there is none.
adapter_for-register_all :
    (provider : String) (adapters : List WebhookAdapter)
    → adapter_for provider (register_all adapters new_registry)
      ≡ found_or_unsupported provider (last_named provider adapters)
unfolding found_or_unsupported
adapter_for-register_all provider adapters =
    registered provider adapters [] ∙ elim (Option-cases (last_named provider adapters)) [
      | inl absent ↦ rw absent (opened provider [] ∙ (unfold lookup in refl))
      | inr (a, present) ↦ rw present
    ]

keyed_head :
    (provider : String) (a b : WebhookAdapter)
    → (if provider_key a.provider == provider_key provider then some a else none) ≡ some b
    → (a ≡ b) × (provider_key a.provider ≡ provider_key provider)
keyed_head provider a b h = elim (Bool-cases (provider_key a.provider == provider_key provider)) [
  | inl same ↦ (some-injective a b (rw same at h), (eq_iff _ _).0 same)
  | inr apart ↦ absurd (ground (arith, h, apart))
]

cons_later :
    (provider : String) (b d : WebhookAdapter) (adapters : List WebhookAdapter)
    → last_named provider adapters ≡ some d
    → last_named provider (b ∷ adapters) ≡ some d
unfolding last_named
cons_later provider b d adapters later = rw (later, last_named) refl

cons_here :
    (provider : String) (b : WebhookAdapter) (adapters : List WebhookAdapter)
    → last_named provider adapters ≡ none
    → last_named provider (b ∷ adapters)
      ≡ (if provider_key b.provider == provider_key provider then some b else none)
unfolding last_named
cons_here provider b adapters absent = rw (absent, last_named) refl

module _ (P : WebhookAdapter → Type 0) (provider : String) where
  -- What holds of all adapters holds of the one that is found, and it has the name.
  named-All :
      (adapters : List WebhookAdapter) (a : WebhookAdapter)
      → All P adapters
      → last_named provider adapters ≡ some a
      → P a × (provider_key a.provider ≡ provider_key provider)
  unfolding last_named
  named-All [] a h found = absurd (ground arith)
  named-All (b ∷ adapters) a (hb, h) found = elim (Option-cases (last_named provider adapters)) [
    | inr (d, later) ↦
        named-All adapters a h (later ∙ sym (cons_later provider b d adapters later) ∙ found)
    | inl absent ↦
        let (same, keyed) =
          keyed_head provider b a (sym (cons_here provider b adapters absent) ∙ found) in
        (subst P same hb, ap (λ (x : WebhookAdapter). provider_key x.provider) (sym same) ∙ keyed)
  ]

  -- What holds of all adapters holds of the one that a registry of them answers with.
  pub adapter_for-All :
      (adapters : List WebhookAdapter) (a : WebhookAdapter)
      → All P adapters
      → adapter_for provider (register_all adapters new_registry) ≡ ok a
      → P a × (provider_key a.provider ≡ provider_key provider)
  unfolding found_or_unsupported
  adapter_for-All adapters a h found = elim (Option-cases (last_named provider adapters)) [
    | inl absent ↦
        absurd (ground (arith, adapter_for-register_all provider adapters, absent, found))
    | inr (b, present) ↦
        named-All adapters a h
          (present ∙ ground (arith, adapter_for-register_all provider adapters, present, found))
  ]
