-- ===== src/Api/Auth/Shown.antt =====
-- What an ingest that authorizeIngest of internal/api/auth.go lets pass has shown, in its headers.
use evidra_gitops.Base.{
  ℕ, String, ◌≡◌, ◌⊎◌, refl, sym, ap, ◌∙◌, Bool, true, false, not, Option, none, some, List, [],
  ◌∷◌, ◌++◌, ◌==◌, arith, inl, inr, eq_iff, any, select, Bool-cases, Option-cases, trim_space,
  to_lower, split_all, if◌then◌else◌,
}
use mathlib.Core.Path.{subst}
use mathlib.Core.Option.{some-injective}
use evidra_gitops.Result.{Result, ok, err, ◌>>=◌}
use evidra_gitops.Api.{Request}
use evidra_gitops.Api.Limiter.{AuthRateLimiter}
use evidra_gitops.Api.Auth.{
  Crypto, AuthConfig, resolve_roles, has_role, header_roles, lowered, or_missing, roles_from_header,
  match_bearer, bearer_passes, behind_scheme, ingest_bearer, signature_passes,
  valid_webhook_signature, authorize_ingest,
}
use evidra_gitops.Api.Auth.Soundness.{IsInRole, authorize_ingest_sound}
use evidra_gitops.Ingest.Shared.{valid_sha256_signature}
use evidra_gitops.Providers.Authorized.{IsSigned, valid-IsSigned}

-- A text stands in a list.
unfoldable pub StandsAmong : String → List String → Type 0
StandsAmong x xs = (front : List String) × (back : List String) × (xs ≡ front ++ x ∷ back)

later : (x y : String) (xs : List String) → StandsAmong x xs → StandsAmong x (y ∷ xs)
unfolding StandsAmong
later x y xs (front, back, shape) = (y ∷ front, back, ap (λ ys. y ∷ ys) shape)

any-found :
    (f : String → Bool) (xs : List String)
    → any f xs ≡ true
    → (x : String) × StandsAmong x xs × (f x ≡ true)
unfolding any StandsAmong
any-found f [] h = absurd (ground arith)
any-found f (x ∷ xs) h = elim (Bool-cases (f x)) [
  | inl fits ↦ (x, ([], xs, refl), fits)
  | inr other ↦
      let (y, stands, fits) = any-found f xs (rw other at h) in (y, later y x xs stands, fits)
]

-- What is found among the roles of a header is a part of it.
part_found :
    (f keep : String → Bool) (parts : List String)
    → any f (select keep (lowered parts)) ≡ true
    → (part : String) × StandsAmong part parts × (f (to_lower (trim_space part)) ≡ true)
unfolding any select lowered StandsAmong
part_found f keep [] h = absurd (ground arith)
part_found f keep (part ∷ parts) h = elim (Bool-cases (keep (to_lower (trim_space part)))) [
  | inr dropped ↦
      let (found, stands, fits) = part_found f keep parts (rw dropped at h) in
      (found, later found part parts stands, fits)
  | inl kept ↦ elim (Bool-cases (f (to_lower (trim_space part)))) [
    | inl fits ↦ (part, ([], parts, refl), fits)
    | inr other ↦
        let (found, stands, fits) = part_found f keep parts (rw other at rw kept at h) in
        (found, later found part parts stands, fits)
  ]
]

admin_among :
    (roles : List String)
    → has_role roles ("admin" ∷ []) ≡ true
    → any (λ role. to_lower (trim_space role) == "admin") roles ≡ true
unfolding has_role any to_lower trim_space
admin_among roles h = ground (arith, h)

wrapped_roles :
    (result : Result (List String)) (enforced : Option (List String))
    → (do roles ← result; ok (some roles)) ≡ ok enforced
    → (roles : List String) × (result ≡ ok roles) × (enforced ≡ some roles)
wrapped_roles (ok roles) enforced h = (roles, refl, ground arith)
wrapped_roles (err failure) enforced h = absurd (ground arith)

or_missing_ok : (xs roles : List String) → or_missing xs ≡ ok roles → roles ≡ xs
unfolding or_missing
or_missing_ok [] roles h = absurd (ground arith)
or_missing_ok (x ∷ xs) roles h = ground arith

header_any :
    (f : String → Bool) (auth : AuthConfig) (r : Request) (roles : List String)
    → roles_from_header auth r ≡ ok roles
    → any f roles ≡ true
    → any f (header_roles (trim_space (r.header auth.roles_header))) ≡ true
unfolding roles_from_header
header_any f auth r roles h found =
    elim (Bool-cases (trim_space (r.header auth.roles_header) == "")) [
      | inl blank ↦ absurd (ground arith)
      | inr written ↦ subst (λ xs. any f xs ≡ true) (or_missing_ok _ roles (rw written at h)) found
    ]

module _ (c : Crypto) (auth : AuthConfig) (r : Request) where
  -- No roles are enforced; or one of the roles of the JWT, or one part of the header of roles, is that of
  -- an administrator, up to case and white space.
  unfoldable pub ShowsAdmin : Type 0
  ShowsAdmin =
      ((auth.jwt_enabled ≡ false) × (auth.oidc_enabled ≡ false))
      ⊎ ((auth.jwt_enabled ≡ true)
          × (roles : List String) × (c.roles_from_jwt r ≡ ok roles)
          × (role : String) × StandsAmong role roles
          × (to_lower (trim_space role) ≡ "admin"))
      ⊎ ((auth.jwt_enabled ≡ false)
          × (auth.oidc_enabled ≡ true)
          × (part : String) × StandsAmong part
              (split_all b',' (trim_space (r.header auth.roles_header)))
          × (to_lower (trim_space (to_lower (trim_space part))) ≡ "admin"))

  -- No token is configured for ingests; or the request brings it as a bearer token: that of ingests, or
  -- else that of reads.
  unfoldable pub ShowsToken : Type 0
  ShowsToken =
      (token : String) × (token ≡ (
        if trim_space auth.ingest_token == ""
        then trim_space auth.read_token
        else trim_space auth.ingest_token))
      × ((token ≡ "")
          ⊎ (behind_scheme b' ' "Bearer" (trim_space (r.header "Authorization")) ≡ some token))

  -- No secret is configured for webhooks; or the header of signatures has the HMAC of the body.
  unfoldable pub ShowsSignature : String → Type 0
  ShowsSignature body =
      (trim_space auth.generic_webhook.secret ≡ "")
      ⊎ IsSigned c r.header body auth.generic_webhook.secret
          (trim_space (r.header auth.generic_webhook.header))

  shows_admin : IsInRole c auth r ("admin" ∷ []) → ShowsAdmin
  unfolding IsInRole ShowsAdmin resolve_roles header_roles roles_from_header
  shows_admin role = elim (Bool-cases auth.jwt_enabled) [
    | inl jwt ↦ elim role [
      | inl free ↦
          let (roles, taken, wrong) = wrapped_roles _ none (rw jwt at free) in absurd (ground arith)
      | inr (roles, resolved, has) ↦
          let (found, taken, same) = wrapped_roles _ (some roles) (rw jwt at resolved) in
          let (role, stands, fits) =
            any-found (λ role. to_lower (trim_space role) == "admin") roles
              (admin_among roles has) in
          inr (
            inl (
              jwt,
              roles,
              taken ∙ ap ok (sym (some-injective _ _ same)),
              role,
              stands,
              (eq_iff _ "admin").0 fits,
            ))
    ]
    | inr no_jwt ↦ elim (Bool-cases auth.oidc_enabled) [
      | inr no_oidc ↦ inl (no_jwt, no_oidc)
      | inl oidc ↦ elim role [
        | inl free ↦
            let (roles, taken, wrong) = wrapped_roles _ none (rw oidc at rw no_jwt at free) in
            absurd (ground arith)
        | inr (roles, resolved, has) ↦
            let (found, taken, same) =
              wrapped_roles _ (some roles) (rw oidc at rw no_jwt at resolved) in
            let (part, stands, fits) =
              part_found (λ role. to_lower (trim_space role) == "admin") (λ role. not (role == ""))
                _
                (header_any _ auth r roles (taken ∙ ap ok (sym (some-injective _ _ same)))
                  (admin_among roles has)) in
            inr (inr (no_jwt, oidc, part, stands, (eq_iff _ "admin").0 fits))
      ]
    ]
  ]

  bearer_shown :
      (token : String)
      → bearer_passes token r ≡ true
      → (token ≡ "")
        ⊎ (behind_scheme b' ' "Bearer" (trim_space (r.header "Authorization")) ≡ some token)
  unfolding bearer_passes match_bearer
  bearer_shown token h = elim (Bool-cases (token == "")) [
    | inl blank ↦ inl ((eq_iff token "").0 blank)
    | inr written ↦ elim (Bool-cases (trim_space (r.header "Authorization") == "")) [
      | inl missing ↦ absurd (ground arith)
      | inr present ↦
          elim (Option-cases
            (behind_scheme b' ' "Bearer" (trim_space (r.header "Authorization")))) [
              | inl absent ↦ absurd (ground arith)
              | inr (shown, found) ↦ inr (found ∙ ap some ((eq_iff shown token).0 (ground arith)))
            ]
    ]
  ]

  shows_token : bearer_passes (ingest_bearer auth) r ≡ true → ShowsToken
  unfolding ShowsToken bearer_passes ingest_bearer match_bearer
  shows_token h =
      let token =
        if trim_space auth.ingest_token == ""
        then trim_space auth.read_token
        else trim_space auth.ingest_token in
      (token, refl, bearer_shown token h)

  shows_signature : (body : String) → signature_passes c auth body r ≡ true → ShowsSignature body
  unfolding ShowsSignature signature_passes valid_webhook_signature valid_sha256_signature
  shows_signature body h = elim (Bool-cases (trim_space auth.generic_webhook.secret == "")) [
    | inl blank ↦ inl ((eq_iff _ "").0 blank)
    | inr written ↦
        inr (valid-IsSigned c r.header body auth.generic_webhook.secret _ (rw written at h))
  ]

  -- An ingest passes only with the role of an administrator where roles are enforced, with the bearer token
  -- of ingests, or else of reads, where one is configured, and with the HMAC of its body under the secret
  -- where one is configured, in the header of signatures.
  pub authorize_ingest_shown :
      (now_window : ℕ) (body : String) (l : Option AuthRateLimiter)
      → (authorize_ingest c auth now_window body r l).0 ≡ ok tt
      → ShowsAdmin × ShowsToken × ShowsSignature body
  authorize_ingest_shown now_window body l h =
      let (role, token, signature) = authorize_ingest_sound c auth r now_window body l h in
      (shows_admin role, shows_token token, shows_signature body signature)
