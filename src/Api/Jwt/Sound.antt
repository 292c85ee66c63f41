-- ===== src/Api/Jwt/Sound.antt =====
-- What a request has shown that rolesFromJWT of internal/api/roles.go takes roles from.
use evidra_gitops.Base.{
  ℕ, String, ◌≡◌, ◌≢◌, refl, ap, true, false, Option, none, some, List, [], ◌∷◌, ◌==◌, arith, inl,
  inr, Bool-cases, Option-cases, trim_space,
}
use evidra_gitops.Base.Dict.{Dict}
use evidra_gitops.Value.{Value}
use evidra_gitops.Result.{Result, ok, err}
use evidra_gitops.Api.{Request}
use evidra_gitops.Api.Defaults.{JwtPolicy, extract_claim_roles}
use evidra_gitops.Api.Jwks.{KeyLibrary, JwksKeyCache}
use evidra_gitops.Event.{extension_string}
use evidra_gitops.Api.Jwt.Keys.{IsConfigured, jwt_key-IsConfigured}
use evidra_gitops.Api.Jwt.{
  Token, Key, KeyFunc, JwtLibrary, Moment, bearer_token, kid_of, jwt_key, checked_roles,
  roles_of_claims, roles_of_token, roles_from_jwt,
}

-- jwt.Parse returns a valid token only if the text is signed with the key that the function it is given
-- has returned for the token, before it was known to be valid.
pub record ChecksSignatures (j : JwtLibrary) (signed : String → Key → Type 0) : Type 0 where
  pub checked :
      (raw : String) (f : KeyFunc) (cache after : Option JwksKeyCache) (token : Token)
      → j.parse raw f cache ≡ (ok (some token), after)
      → token.valid ≡ true
      → (key : Key) × (f (record token { valid = false }) cache ≡ (ok key, after)) × signed raw key

-- What a request has shown: a token that is signed with a configured key, whose claims hold and name the
-- roles.
pub record IsAuthentic (j : JwtLibrary) (signed : String → Key → Type 0) (policy : JwtPolicy)
    (later : ℕ) (raw : String) (roles : List String) (after : Option JwksKeyCache) : Type 0 where
  pub token : Token
  pub key : Key
  pub claims : Dict Value
  pub configured : IsConfigured j policy token key after
  pub is_signed : signed raw key
  pub claimed : token.claims ≡ some claims
  pub issuer : j.verify_issuer claims policy.issuer ≡ true
  pub audience : j.verify_audience claims policy.audience ≡ true
  pub not_expired : j.verify_expires_at claims later ≡ true
  pub named : roles ≡ extract_claim_roles claims policy.roles_claim
  pub is_role : roles ≢ []

checked_roles_ok :
    (found : String) (subject : String) (roles claimed : List String)
    → checked_roles found claimed ≡ ok (subject, roles)
    → (roles ≡ claimed) × (roles ≢ [])
checked_roles_ok found subject roles [] h = absurd (ground arith)
checked_roles_ok found subject roles (role ∷ rest) h =
    (ground arith, λ empty. absurd (ground arith))

-- What the checks of the claims have let through.
roles_of_claims_returns :
    (j : JwtLibrary) (policy : JwtPolicy) (later : ℕ) (claims : Dict Value) (subject : String)
    (roles : List String)
    → roles_of_claims j policy later claims ≡ ok (subject, roles)
    → (j.verify_issuer claims policy.issuer ≡ true)
      × (j.verify_audience claims policy.audience ≡ true)
      × (j.verify_expires_at claims later ≡ true)
      × (roles ≡ extract_claim_roles claims policy.roles_claim)
      × (roles ≢ [])
unfolding roles_of_claims
roles_of_claims_returns j policy later claims subject roles h =
    elim (Bool-cases (j.verify_issuer claims policy.issuer)) [
      | inr other ↦ absurd (ground arith)
      | inl issuer ↦ elim (Bool-cases (j.verify_audience claims policy.audience)) [
        | inr other ↦ absurd (ground arith)
        | inl audience ↦ elim (Bool-cases (j.verify_expires_at claims later)) [
          | inr expired ↦ absurd (ground arith)
          | inl kept ↦
              let (named, some_role) =
                checked_roles_ok (extension_string claims "sub") subject roles
                  (extract_claim_roles claims policy.roles_claim) (ground arith) in
              (issuer, audience, kept, named, some_role)
        ]
      ]
    ]

roles_of_token_returns :
    (j : JwtLibrary) (policy : JwtPolicy) (later : ℕ) (parsed : Result (Option Token))
    (answer : String × List String)
    → roles_of_token j policy later parsed ≡ ok answer
    → (token : Token) × (parsed ≡ ok (some token))
      × (token.valid ≡ true)
      × (claims : Dict Value) × (token.claims ≡ some claims)
      × (roles_of_claims j policy later claims ≡ ok answer)
unfolding roles_of_token
roles_of_token_returns j policy later (err failure) answer h = absurd (ground arith)
roles_of_token_returns j policy later (ok none) answer h = absurd (ground arith)
roles_of_token_returns j policy later (ok (some token)) answer h = elim (Bool-cases token.valid) [
  | inr invalid ↦ absurd (ground arith)
  | inl valid ↦ elim (Option-cases token.claims) [
    | inl no_claims ↦ absurd (ground arith)
    | inr (claims, claimed) ↦ (token, refl, valid, claims, claimed, ground arith)
  ]
]

module _ (l : KeyLibrary) (j : JwtLibrary) (signed : String → Key → Type 0)
    (checks : ChecksSignatures j signed) (policy : JwtPolicy) (at : Moment) where
  shown :
      (raw subject : String) (roles : List String) (cache after : Option JwksKeyCache)
      (token : Token) (claims : Dict Value)
      → j.parse raw (jwt_key l j policy at) cache ≡ (ok (some token), after)
      → token.valid ≡ true
      → token.claims ≡ some claims
      → roles_of_claims j policy at.later claims ≡ ok (subject, roles)
      → IsAuthentic j signed policy at.later raw roles after
  unfolding IsConfigured kid_of
  shown raw subject roles cache after token claims is_token valid claimed passed =
      let (issuer, audience, expiry, named, some_role) =
        roles_of_claims_returns j policy at.later claims subject roles passed in
      let (key, made, is_signed) =
        checks.checked raw (jwt_key l j policy at) cache after token is_token valid in
      record {
        token = token;
        key = key;
        claims = claims;
        configured =
            jwt_key-IsConfigured l j at (record token { valid = false }) policy cache after key
              made;
        is_signed = is_signed;
        claimed = claimed;
        issuer = issuer;
        audience = audience;
        not_expired = expiry;
        named = named;
        is_role = some_role;
      }

  -- Roles are taken only from a bearer token that is signed with a configured key, the secret, the key of
  -- the PEM text or the key that the cache has under the token's id, and whose issuer, audience and expiry
  -- are verified; they are the roles of the configured claim, and there are some. It is needed that
  -- jwt.Parse checks signatures.
  pub roles_from_jwt_sound :
      (r : Request) (cache : Option JwksKeyCache) (subject : String) (roles : List String)
      → (roles_from_jwt l j policy at r cache).0 ≡ ok (subject, roles)
      → IsAuthentic j signed policy at.later
          (trim_space (bearer_token (r.header "Authorization")))
          roles
          (roles_from_jwt l j policy at r cache).1
  unfolding roles_from_jwt
  roles_from_jwt_sound r cache subject roles h =
      let raw = trim_space (bearer_token (r.header "Authorization")) in
      let parsed = j.parse raw (jwt_key l j policy at) cache in
      elim (Bool-cases (raw == "")) [
        | inl blank ↦ absurd (ground arith)
        | inr written ↦
            let (token, is_token, valid, claims, claimed, passed) =
              roles_of_token_returns j policy at.later parsed.0 (subject, roles) (ground arith) in
            rw (written, roles_from_jwt)
              (shown raw subject roles cache parsed.1 token claims
                (ap (λ p. (p, parsed.1)) is_token) valid claimed passed)
      ]
