-- ===== src/Api/Jwks.antt =====
-- internal/api/jwks.go: the cache of the keys that an endpoint serves. What a request is answered with
-- is an argument, for each request that an operation may make, with the time at which it is over.
pub mod Rotation
use evidra_gitops.Base.{
  ℕ, ◌+◌, ◌-◌, ◌*◌, ◌%◌, ◌^◌, String, Bool, true, false, ◌&&◌, ◌||◌, Option, none, some, List, [],
  ◌∷◌, ◌==◌, leb, ltb, eqb, if◌then◌else◌, trim_space, to_upper,
}
use evidra_gitops.Base.Int.{ℤ, pos, negsuc, is_positive, pos_part}
use evidra_gitops.Base.Dict.{Dict, lookup, insert}
use evidra_gitops.Result.{Error, Result, ok, err, other}
use evidra_gitops.Api.Defaults.{JwtPolicy}

-- rsa.PublicKey
pub record RsaKey : Type 0 where
  pub modulus : ℕ
  pub exponent : ℤ

-- jwkEntry, the part that is read
pub record JwkEntry : Type 0 where
  pub kty : String
  pub kid : String
  pub n : String
  pub e : String

-- What a request is answered with; no document where the decoder fails.
pub record HttpReply : Type 0 where
  pub status : ℕ
  pub document : Option (List JwkEntry)

-- The end of a request.
pub record Fetch : Type 0 where
  pub at : ℕ
  pub reply : Result HttpReply

-- What the cache takes from libraries: base64.RawURLEncoding, to bytes, and time.ParseDuration, to
-- nanoseconds
pub record KeyLibrary : Type 0 where
  pub decode_bytes : String → Option (List ℕ)
  pub parse_duration : String → Option ℤ

-- jwksKeyCache
pub record JwksKeyCache : Type 0 where
  pub url : String
  pub refresh_every : ℕ
  pub last_refresh : ℕ
  pub keys : Dict RsaKey

-- The duration that is configured, if it is positive, or five minutes
unfoldable pub refresh_interval : KeyLibrary → String → ℕ
refresh_interval l raw = elim (l.parse_duration (trim_space raw)) [
  | none ↦ 300000000000
  | some d ↦ if is_positive d then pos_part d else 300000000000
]

-- newJWKSKeyCache: `none` is nil
unfoldable pub new_jwks_key_cache : KeyLibrary → JwtPolicy → Option JwksKeyCache
new_jwks_key_cache l policy =
    if trim_space policy.jwks_url == ""
    then none
    else some (record {
      url = trim_space policy.jwks_url;
      refresh_every = refresh_interval l policy.jwks_refresh;
      last_refresh = 0;
      keys = [];
    })

-- `SetBytes`: the number of big-endian bytes
unfoldable pub number_from : ℕ → List ℕ → ℕ
number_from n [] = n
number_from n (b ∷ bs) = number_from (n * 256 + b) bs

-- `Int64()` of a number that is not negative: its low 64 bits
unfoldable pub int64_of : ℕ → ℤ
int64_of n = let low = n % 2 ^ 64 in if ltb low (2 ^ 63) then pos low else negsuc (2 ^ 64 - low - 1)

unfoldable pub checked_key : ℕ → ℤ → Option RsaKey
checked_key n e =
    if eqb n 0
    then none
    else if is_positive e
    then some (record { modulus = n; exponent = e })
    else none

-- rsaKeyFromJWK: `none` is an error
unfoldable pub rsa_key_from_jwk : KeyLibrary → String → String → Option RsaKey
rsa_key_from_jwk l n e = elim (l.decode_bytes (trim_space n)) [
  | none ↦ none
  | some nb ↦ elim (l.decode_bytes (trim_space e)) [
    | none ↦ none
    | some eb ↦ checked_key (number_from 0 nb) (int64_of (number_from 0 eb))
  ]
]

abbrev is_usable : JwkEntry → Bool
is_usable entry =
    if to_upper (trim_space entry.kty) == "RSA"
    then if trim_space entry.kid == "" || trim_space entry.n == "" || trim_space entry.e == ""
      then false
      else true
    else false

-- One round of the loop over the entries.
unfoldable pub add_entry : KeyLibrary → JwkEntry → Dict RsaKey → Dict RsaKey
add_entry l entry next =
    if is_usable entry
    then elim (rsa_key_from_jwk l entry.n entry.e) [
      | none ↦ next
      | some key ↦ insert entry.kid key next
    ]
    else next

unfoldable pub keys_from : KeyLibrary → List JwkEntry → Dict RsaKey → Dict RsaKey
keys_from l [] next = next
keys_from l (entry ∷ entries) next = keys_from l entries (add_entry l entry next)

unfoldable pub some_keys : Dict RsaKey → Result (Dict RsaKey)
some_keys [] = err (other "jwks contains no rsa keys")
some_keys (entry ∷ keys) = ok (entry ∷ keys)

-- The keys that an answer brings.
unfoldable pub served_keys : KeyLibrary → Result HttpReply → Result (Dict RsaKey)
unfolding some_keys
served_keys l (err failure) = err failure
served_keys l (ok reply) =
    if ltb reply.status 200 || leb 300 reply.status
    then err (other "jwks fetch failed")
    else elim reply.document [
      | none ↦ err (other "decode")
      | some entries ↦ some_keys (keys_from l entries [])
    ]

-- refresh
unfoldable pub refresh : KeyLibrary → Fetch → JwksKeyCache → Result (Unit {0}) × JwksKeyCache
refresh l fetch c = elim (served_keys l fetch.reply) [
  | err failure ↦ (err failure, c)
  | ok keys ↦ (ok tt, record c { keys = keys; last_refresh = fetch.at })
]

abbrev pub has_none : Dict RsaKey → Bool
has_none [] = true
has_none (entry ∷ keys) = false

-- A cache is refreshed after its interval, which is positive, and where it has no keys.
unfoldable pub is_stale : ℕ → JwksKeyCache → Bool
is_stale now c = leb c.refresh_every (now - c.last_refresh) || has_none c.keys

unfoldable pub found_key : Option RsaKey → Result RsaKey
found_key none = err (other "jwks key not found")
found_key (some key) = ok key

-- What resolveKey answers behind its second request.
unfoldable pub after_second :
    String → Result (Unit {0}) × JwksKeyCache → Result RsaKey × JwksKeyCache
unfolding found_key
after_second kid (err failure, c) = (err failure, c)
after_second kid (ok _, c) = (found_key (lookup kid c.keys), c)

-- The second request is made where the cache has no such key.
unfoldable pub look_up : KeyLibrary → Fetch → String → JwksKeyCache → Result RsaKey × JwksKeyCache
unfolding after_second
look_up l fetch kid c = elim (lookup kid c.keys) [
  | none ↦ after_second kid (refresh l fetch c)
  | some key ↦ (ok key, c)
]

-- What resolveKey does behind its first request.
unfoldable pub after_first :
    KeyLibrary → Fetch → String → Result (Unit {0}) × JwksKeyCache → Result RsaKey × JwksKeyCache
after_first l second kid (ok _, c) = look_up l second kid c
after_first l second kid (err failure, c) =
    if has_none c.keys then (err failure, c) else look_up l second kid c

-- resolveKey of a cache, with the two requests that it may make
unfoldable pub resolve_key :
    KeyLibrary → ℕ → Fetch → Fetch → String → JwksKeyCache → Result RsaKey × JwksKeyCache
unfolding after_first
resolve_key l now first second kid c =
    if is_stale now c then after_first l second kid (refresh l first c) else look_up l second kid c
