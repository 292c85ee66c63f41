-- ===== src/Providers/Authorized.antt =====
-- What a webhook has shown that the adapters of internal/providers let pass.
use evidra_gitops.Base.{
  String, ◌≡◌, ◌≢◌, ◌⊎◌, refl, sym, ap, Bool, true, false, Option, none, some, List, [], ◌∷◌, ◌++◌,
  ◌==◌, All, arith, eq_iff, inl, inr, Option-cases, trim_space,
}
use evidra_gitops.Result.{ok}
use evidra_gitops.Api.Auth.{Crypto, behind_scheme}
use evidra_gitops.Ingest.{HeaderReader}
use evidra_gitops.Ingest.Shared.{valid_sha256_signature}
use evidra_gitops.Providers.Bitbucket.{Policy, authorize_by}
use evidra_gitops.Providers.Bitbucket

module _ (c : Crypto) (headers : HeaderReader) (body : String) where
  -- A header brings the HMAC of the body under a secret, in hexadecimal behind "sha256=".
  unfoldable pub IsSigned : String → String → Type 0
  IsSigned secret header =
      (hex : String) × (behind_scheme b'=' "sha256" (trim_space header) ≡ some hex)
      × (c.decode_hex hex ≡ some (c.hmac_sha256 secret body))

  unfoldable digest_matches : String → Option String → Bool
  digest_matches secret none = false
  digest_matches secret (some provided) = c.hmac_sha256 secret body == provided

  unfoldable hex_matches : String → Option String → Bool
  unfolding digest_matches
  hex_matches secret none = false
  hex_matches secret (some hex) = digest_matches secret (c.decode_hex hex)

  digest_of :
      (secret : String) (o : Option String)
      → digest_matches secret o ≡ true
      → o ≡ some (c.hmac_sha256 secret body)
  unfolding digest_matches
  digest_of secret none h = absurd (ground arith)
  digest_of secret (some provided) h = ap some (sym ((eq_iff _ _).0 h))

  hex_of :
      (secret : String) (o : Option String)
      → hex_matches secret o ≡ true
      → (hex : String) × (o ≡ some hex) × (c.decode_hex hex ≡ some (c.hmac_sha256 secret body))
  unfolding hex_matches
  hex_of secret none h = absurd (ground arith)
  hex_of secret (some hex) h = (hex, refl, digest_of secret (c.decode_hex hex) h)

  valid-hex_matches :
      (secret header : String)
      → valid_sha256_signature c secret body header ≡ true
      → hex_matches secret (behind_scheme b'=' "sha256" (trim_space header)) ≡ true
  unfolding valid_sha256_signature hex_matches digest_matches
  valid-hex_matches secret header h =
      elim (Option-cases (behind_scheme b'=' "sha256" (trim_space header))) [
        | inl absent ↦ absurd (ground (arith, absent, h))
        | inr (hex, present) ↦ elim (Option-cases (c.decode_hex hex)) [
          | inl odd ↦ absurd (ground (arith, present, odd, h))
          | inr (provided, even) ↦ rw present (rw even (ground (arith, present, even, h)))
        ]
      ]

  pub valid-IsSigned :
      (secret header : String)
      → valid_sha256_signature c secret body header ≡ true
      → IsSigned secret header
  unfolding IsSigned
  valid-IsSigned secret header h = hex_of secret _ (valid-hex_matches secret header h)

  -- One of the policies has a secret under which the header that it names is signed.
  unfoldable pub IsPassedBy : List Policy → Type 0
  IsPassedBy policies =
      (policy : Policy) × (front : List Policy) × (back : List Policy) × (policies
        ≡ front ++ policy ∷ back)
      × (trim_space policy.secret ≢ "")
      × IsSigned (trim_space policy.secret) (trim_space (headers (trim_space policy.header)))

  abbrev pub IsWithoutSecrets : List Policy → Type 0
  IsWithoutSecrets policies = All (λ (policy : Policy). trim_space policy.secret ≡ "") policies

  passed_later :
      (q : Policy) (policies : List Policy) → IsPassedBy policies → IsPassedBy (q ∷ policies)
  unfolding IsPassedBy
  passed_later q policies (policy, front, back, shape, written, signed) =
      (policy, q ∷ front, back, ap (λ ps. q ∷ ps) shape, written, signed)

  passed_first :
      (q : Policy) (policies : List Policy)
      → trim_space q.secret ≢ ""
      → valid_sha256_signature c
          (trim_space q.secret)
          body
          (trim_space (headers (trim_space q.header)))
        ≡ true
      → IsPassedBy (q ∷ policies)
  unfolding IsPassedBy
  passed_first q policies written valid =
      (q, [], policies, refl, written, valid-IsSigned (trim_space q.secret) _ valid)

  -- What the loop has read of the first policy.
  first_policy :
      (b : Bool) (q : Policy) (policies : List Policy)
      → authorize_by c headers body b (q ∷ policies) ≡ ok tt
      → ((trim_space q.secret ≡ "") × (authorize_by c headers body b policies ≡ ok tt))
        ⊎ ((trim_space q.secret ≢ "") × (authorize_by c headers body true policies ≡ ok tt))
        ⊎ ((trim_space q.secret ≢ "")
            × (valid_sha256_signature c
                  (trim_space q.secret)
                  body
                  (trim_space (headers (trim_space q.header)))
                ≡ true))
  unfolding authorize_by
  first_policy b q policies h = ground (arith, eq_iff (trim_space q.secret) "")

  authorized_by :
      (b : Bool) (policies : List Policy)
      → authorize_by c headers body b policies ≡ ok tt
      → ((b ≡ false) × IsWithoutSecrets policies) ⊎ IsPassedBy policies
  unfolding authorize_by
  authorized_by true [] h = absurd (ground arith)
  authorized_by false [] h = inl (refl, tt)
  authorized_by b (q ∷ policies) h = elim (first_policy b q policies h) [
    | inl (blank, rest) ↦ elim (authorized_by b policies rest) [
      | inl (none_yet, without) ↦ inl (none_yet, (blank, without))
      | inr passed ↦ inr (passed_later q policies passed)
    ]
    | inr (inl (written, rest)) ↦ elim (authorized_by true policies rest) [
      | inl (impossible, without) ↦ absurd (ground arith)
      | inr passed ↦ inr (passed_later q policies passed)
    ]
    | inr (inr (written, valid)) ↦ inr (passed_first q policies written valid)
  ]

  -- A webhook passes the adapter of Bitbucket only if no policy has a secret, or if the body is signed
  -- under the secret of a policy, in the header of that policy.
  pub bitbucket_authorize_sound :
      (a : Bitbucket.Adapter)
      → Bitbucket.authorize c a headers body ≡ ok tt
      → IsWithoutSecrets a.policies ⊎ IsPassedBy a.policies
  unfolding Bitbucket.authorize
  bitbucket_authorize_sound a h = elim (authorized_by false a.policies h) [
    | inl (start, without) ↦ inl without
    | inr passed ↦ inr passed
  ]
