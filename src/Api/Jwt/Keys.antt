-- ===== src/Api/Jwt/Keys.antt =====
-- The keys by which rolesFromJWT of internal/api/roles.go has tokens verified, and those that resolveKey of
-- internal/api/jwks.go finds.
use evidra_gitops.Base.{
  ℕ, String, ◌≡◌, ◌≢◌, ◌⊎◌, refl, sym, Option, none, some, ◌==◌, arith, inl, inr, Bool-cases,
  Option-cases, eq_iff, trim_space,
}
use evidra_gitops.Base.Dict.{lookup}
use evidra_gitops.Result.{Result, ok, err}
use evidra_gitops.Api.Defaults.{JwtPolicy}
use evidra_gitops.Api.Jwks.{
  RsaKey, Fetch, KeyLibrary, JwksKeyCache, refresh, has_none, is_stale, after_first, after_second,
  found_key, look_up, resolve_key,
}
use evidra_gitops.Api.Jwt.{
  Token, Key, secret, rsa, JwtLibrary, Moment, parse_rsa_public_key_pem, kid_of, as_rsa,
  resolve_jwt_key_from_jwks, hs256_key, pem_key, jwt_key,
}

abbrev Found : String → Result RsaKey × JwksKeyCache → Type 0
Found kid (r, c) = (key : RsaKey) → r ≡ ok key → lookup kid c.keys ≡ some key

after_second-Found :
    (kid : String) (r : Result (Unit {0}) × JwksKeyCache) → Found kid (after_second kid r)
unfolding after_second found_key
after_second-Found kid (err failure, c) key h = absurd (ground arith)
after_second-Found kid (ok _, c) key h = elim (Option-cases (lookup kid c.keys)) [
  | inl absent ↦ absurd (ground arith)
  | inr (other, found) ↦ ground arith
]

look_up-Found :
    (l : KeyLibrary) (fetch : Fetch) (kid : String) (c : JwksKeyCache)
    → Found kid (look_up l fetch kid c)
unfolding look_up
look_up-Found l fetch kid c = elim (Option-cases (lookup kid c.keys)) [
  | inl absent ↦ rw (absent, look_up) (after_second-Found kid (refresh l fetch c))
  | inr (key, found) ↦ rw (found, look_up) (λ other h. ground arith)
]

after_first-Found :
    (l : KeyLibrary) (fetch : Fetch) (kid : String) (r : Result (Unit {0}) × JwksKeyCache)
    → Found kid (after_first l fetch kid r)
unfolding after_first
after_first-Found l fetch kid (ok _, c) = look_up-Found l fetch kid c
after_first-Found l fetch kid (err failure, c) = elim (Bool-cases (has_none c.keys)) [
  | inl none_kept ↦ rw (none_kept, after_first) (λ key h. absurd (ground arith))
  | inr kept ↦ rw (kept, after_first) (look_up-Found l fetch kid c)
]

-- A key that is resolved is in the cache afterwards, under its id.
resolve_key-Found :
    (l : KeyLibrary) (now : ℕ) (first second : Fetch) (kid : String) (c : JwksKeyCache)
    → Found kid (resolve_key l now first second kid c)
unfolding resolve_key
resolve_key-Found l now first second kid c = elim (Bool-cases (is_stale now c)) [
  | inl stale ↦ rw (stale, resolve_key) (after_first-Found l second kid (refresh l first c))
  | inr fresh ↦ rw (fresh, resolve_key) (look_up-Found l second kid c)
]

-- A key as the policy has it for a token: the secret, the key of the PEM text, or the key that the cache
-- has for the token.
unfoldable pub IsConfigured : JwtLibrary → JwtPolicy → Token → Key → Option JwksKeyCache → Type 0
IsConfigured j policy token key after =
    ((token.alg ≡ j.hs256)
      × (trim_space policy.hs256_secret ≢ "")
      × (key ≡ secret (trim_space policy.hs256_secret)))
    ⊎ ((token.alg ≡ j.rs256)
        × (k : RsaKey) × (key ≡ rsa k)
        × (((trim_space policy.jwks_url ≡ "")
              × (parse_rsa_public_key_pem j (trim_space policy.rs256_public_key_pem) ≡ ok k))
            ⊎ ((trim_space policy.jwks_url ≢ "")
                × (c : JwksKeyCache) × (after ≡ some c)
                × (lookup (kid_of j token) c.keys ≡ some k))))

hs256_key-configured :
    (policy : JwtPolicy) (key : Key)
    → hs256_key policy ≡ ok key
    → (trim_space policy.hs256_secret ≢ "") × (key ≡ secret (trim_space policy.hs256_secret))
unfolding hs256_key
hs256_key-configured policy key h = ground (arith, eq_iff (trim_space policy.hs256_secret) "")

as_rsa-ok :
    (r : Result RsaKey) (key : Key) → as_rsa r ≡ ok key → (k : RsaKey) × (r ≡ ok k) × (key ≡ rsa k)
as_rsa-ok (ok k) key h = (k, refl, ground arith)
as_rsa-ok (err failure) key h = absurd (ground arith)

pem_key-configured :
    (j : JwtLibrary) (policy : JwtPolicy) (key : Key)
    → pem_key j policy ≡ ok key
    → as_rsa (parse_rsa_public_key_pem j (trim_space policy.rs256_public_key_pem)) ≡ ok key
unfolding pem_key
pem_key-configured j policy key h = ground arith

module _ (l : KeyLibrary) (j : JwtLibrary) (at : Moment) (token : Token) where
  from_jwks :
      (cache after : Option JwksKeyCache) (key : Key)
      → resolve_jwt_key_from_jwks l j at token cache ≡ (ok key, after)
      → (k : RsaKey) × (key ≡ rsa k)
        × (c : JwksKeyCache) × (after ≡ some c)
        × (lookup (kid_of j token) c.keys ≡ some k)
  unfolding resolve_jwt_key_from_jwks
  from_jwks none after key h = absurd (ground arith)
  from_jwks (some c) after key h = elim (Bool-cases (kid_of j token == "")) [
    | inl blank ↦ absurd (ground arith)
    | inr named ↦
        let shape : (as_rsa (resolve_key l at.now at.first at.second (kid_of j token) c).0 ≡ ok key)
            × (some (resolve_key l at.now at.first at.second (kid_of j token) c).1 ≡ after) =
          ground arith in
        let (k, resolved, is_k) = as_rsa-ok _ key shape.0 in
        (
          k,
          is_k,
          (resolve_key l at.now at.first at.second (kid_of j token) c).1,
          sym shape.1,
          resolve_key-Found l at.now at.first at.second (kid_of j token) c k resolved,
        )
  ]

  pub jwt_key-IsConfigured :
      (policy : JwtPolicy) (cache after : Option JwksKeyCache) (key : Key)
      → jwt_key l j policy at token cache ≡ (ok key, after)
      → IsConfigured j policy token key after
  unfolding jwt_key IsConfigured
  jwt_key-IsConfigured policy cache after key h = elim (Bool-cases (token.alg == j.hs256)) [
    | inl hs ↦
        let shape : hs256_key policy ≡ ok key = ground arith in
        let (written, same) = hs256_key-configured policy key shape in
        inl ((eq_iff token.alg j.hs256).0 hs, written, same)
    | inr other ↦ elim (Bool-cases (token.alg == j.rs256)) [
      | inr unknown ↦ absurd (ground arith)
      | inl rs ↦ elim (Bool-cases (trim_space policy.jwks_url == "")) [
        | inl blank ↦
            let shape : pem_key j policy ≡ ok key = ground arith in
            let (k, parsed, is_k) = as_rsa-ok _ key (pem_key-configured j policy key shape) in
            inr ((eq_iff token.alg j.rs256).0 rs, k, is_k, inl ((eq_iff _ "").0 blank, parsed))
        | inr served ↦
            let shape : resolve_jwt_key_from_jwks l j at token cache ≡ (ok key, after) =
              ground arith in
            let (k, is_k, c, kept, found) = from_jwks cache after key shape in
            inr (
              (eq_iff token.alg j.rs256).0 rs,
              k,
              is_k,
              inr (
                λ blank. absurd (ground (arith, (eq_iff (trim_space policy.jwks_url) "").1 blank)),
                c,
                kept,
                found,
              ),
            )
      ]
    ]
  ]
